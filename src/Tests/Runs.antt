-- ===== src/Tests/Runs.antt =====
-- Runs of the number library.
use aex_cpp_sdk.Base.{List, ℕ, [], ◌∷◌, ◌≡◌, refl, true}
use aex_cpp_sdk.Bignum.Bytes
use aex_cpp_sdk.Bignum.Compare
use aex_cpp_sdk.Bignum.Shift
use aex_cpp_sdk.Bignum.Arith
use aex_cpp_sdk.Bignum.Reduce
use aex_cpp_sdk.Bignum.Multiply
use aex_cpp_sdk.Bignum.Power
use aex_cpp_sdk.Bignum.Decimal

abbrev prime : List ℕ
prime =
    0x3ffffc2f ∷ 0x3ffffffb ∷ 0x3fffffff ∷ 0x3fffffff ∷ 0x3fffffff ∷ 0x3fffffff ∷ 0x3fffffff
    ∷ 0x3fffffff ∷ 0xffff ∷ []

abbrev a : List ℕ
a =
    0xddeeff0 ∷ 0x266aaef3 ∷ 0x15667788 ∷ 0x488cd11 ∷ 0x14321001 ∷ 0x32ea61d9 ∷ 0xdef0fed
    ∷ 0x159e26af ∷ 0x1234 ∷ []

abbrev b : List ℕ
b =
    0xcddee77 ∷ 0x2266aaef ∷ 0x5566778 ∷ 0x4488cd1 ∷ 0x12e1f000 ∷ 0x1a96d30f ∷ 0x26978879
    ∷ 0xb4f12d6 ∷ 0xf1e ∷ []

multiply : Reduce.bn_mod (Multiply.bn_multiply a b prime) prime ≡ (
    0xd2c0758 ∷ 0x2419ac4 ∷ 0x22904d62 ∷ 0x1b5ed4f ∷ 0x28189088 ∷ 0x2617c138 ∷ 0x1061124b
    ∷ 0x27bd7478 ∷ 0xdde0 ∷ [])
unfolding Compare.bn_cmov Compare.cmov_loop Arith.bn_subtract Arith.subtract_loop Compare.bn_is_less
    Compare.less_bits Multiply.column Multiply.long_loop Multiply.bn_multiply_long
    Multiply.bn_multiply_reduce_step Multiply.reduce_loop Multiply.bn_multiply_reduce
    Multiply.bn_multiply Reduce.submul_loop Reduce.submul Reduce.bn_fast_mod Reduce.bn_mod
    Reduce.add_limbs Reduce.bn_addmod Reduce.bn_mult_k
multiply = refl

inverse : Power.bn_inverse a prime ≡ (
    0x124a2209 ∷ 0x2781b9a9 ∷ 0x9b0141a ∷ 0x22f6b586 ∷ 0x4a00898 ∷ 0x390efc66 ∷ 0xba99c56
    ∷ 0x35634ebb ∷ 0xa9e4 ∷ [])
unfolding Power.bits_loop Power.limbs_loop Power.bn_sqrt Power.minus_two Power.bn_inverse
    Multiply.column Multiply.long_loop Multiply.bn_multiply_long Multiply.bn_multiply_reduce_step
    Multiply.reduce_loop Multiply.bn_multiply_reduce Multiply.bn_multiply Reduce.submul_loop
    Reduce.submul Reduce.bn_fast_mod Reduce.bn_mod Reduce.add_limbs Reduce.bn_addmod
    Reduce.bn_mult_k Arith.add_loop Arith.bn_add Arith.addi_loop Arith.bn_addi Arith.bn_normalize
    Arith.sub_low Arith.bn_subi Arith.subtractmod_loop Arith.bn_subtractmod Arith.subtract_loop
    Arith.bn_subtract Compare.bn_zero Compare.bn_one Compare.or_limbs Compare.bn_is_zero
    Compare.bn_is_even Compare.bn_is_odd Compare.less_bits Compare.bn_is_less Compare.differing
    Compare.bn_is_equal Compare.cmov_loop Compare.bn_cmov Shift.lshift_loop Shift.bn_lshift
    Shift.bn_rshift Shift.bn_setbit Shift.bn_clearbit Shift.bn_testbit Shift.bn_xor Shift.half_loop
    Shift.bn_mult_half
inverse = refl

square_root : Power.bn_sqrt a prime ≡ (
    0x26fe391b ∷ 0x30471a41 ∷ 0x3a0058ff ∷ 0x333dd05f ∷ 0xb17ec07 ∷ 0x29c6958d ∷ 0x13bd1342
    ∷ 0xc5022aa ∷ 0x2a1c ∷ [])
unfolding Power.bits_loop Power.limbs_loop Power.bn_sqrt Power.minus_two Power.bn_inverse
    Multiply.column Multiply.long_loop Multiply.bn_multiply_long Multiply.bn_multiply_reduce_step
    Multiply.reduce_loop Multiply.bn_multiply_reduce Multiply.bn_multiply Reduce.submul_loop
    Reduce.submul Reduce.bn_fast_mod Reduce.bn_mod Reduce.add_limbs Reduce.bn_addmod
    Reduce.bn_mult_k Arith.add_loop Arith.bn_add Arith.addi_loop Arith.bn_addi Arith.bn_normalize
    Arith.sub_low Arith.bn_subi Arith.subtractmod_loop Arith.bn_subtractmod Arith.subtract_loop
    Arith.bn_subtract Compare.bn_zero Compare.bn_one Compare.or_limbs Compare.bn_is_zero
    Compare.bn_is_even Compare.bn_is_odd Compare.less_bits Compare.bn_is_less Compare.differing
    Compare.bn_is_equal Compare.cmov_loop Compare.bn_cmov Shift.lshift_loop Shift.bn_lshift
    Shift.bn_rshift Shift.bn_setbit Shift.bn_clearbit Shift.bn_testbit Shift.bn_xor Shift.half_loop
    Shift.bn_mult_half
square_root = refl

left_shift : Shift.bn_lshift a ≡ (
    0x1bbddfe0 ∷ 0xcd55de6 ∷ 0x2accef11 ∷ 0x9119a22 ∷ 0x28642002 ∷ 0x25d4c3b2 ∷ 0x1bde1fdb
    ∷ 0x2b3c4d5e ∷ 0x2468 ∷ [])
unfolding Shift.lshift_loop Shift.bn_lshift Shift.bn_rshift Shift.bn_setbit Shift.bn_clearbit
    Shift.bn_testbit Shift.bn_xor Shift.half_loop Shift.bn_mult_half
left_shift = refl

right_shift : Shift.bn_rshift a ≡ (
    0x26ef77f8 ∷ 0x13355779 ∷ 0x2ab33bc4 ∷ 0x22446688 ∷ 0x2a190800 ∷ 0x397530ec ∷ 0x26f787f6
    ∷ 0xacf1357 ∷ 0x91a ∷ [])
unfolding Shift.lshift_loop Shift.bn_lshift Shift.bn_rshift Shift.bn_setbit Shift.bn_clearbit
    Shift.bn_testbit Shift.bn_xor Shift.half_loop Shift.bn_mult_half
right_shift = refl

half_even : Shift.bn_mult_half a prime ≡ (
    0x26ef77f8 ∷ 0x13355779 ∷ 0x2ab33bc4 ∷ 0x22446688 ∷ 0x2a190800 ∷ 0x397530ec ∷ 0x26f787f6
    ∷ 0xacf1357 ∷ 0x91a ∷ [])
unfolding Shift.lshift_loop Shift.bn_lshift Shift.bn_rshift Shift.bn_setbit Shift.bn_clearbit
    Shift.bn_testbit Shift.bn_xor Shift.half_loop Shift.bn_mult_half
half_even = refl

half_odd : Shift.bn_mult_half b prime ≡ (
    0x266ef553 ∷ 0x11335575 ∷ 0x22ab33bc ∷ 0x2244668 ∷ 0x2970f800 ∷ 0x2d4b6987 ∷ 0x134bc43c
    ∷ 0x5a7896b ∷ 0x878f ∷ [])
unfolding Shift.lshift_loop Shift.bn_lshift Shift.bn_rshift Shift.bn_setbit Shift.bn_clearbit
    Shift.bn_testbit Shift.bn_xor Shift.half_loop Shift.bn_mult_half
half_odd = refl

exclusive_or : Shift.bn_xor a b ≡ (
    0x1030187 ∷ 0x40c041c ∷ 0x103010f0 ∷ 0xc041c0 ∷ 0x6d3e001 ∷ 0x287cb2d6 ∷ 0x2b788794 ∷ 0x1ed13479
    ∷ 0x1d2a ∷ [])
unfolding Shift.lshift_loop Shift.bn_lshift Shift.bn_rshift Shift.bn_setbit Shift.bn_clearbit
    Shift.bn_testbit Shift.bn_xor Shift.half_loop Shift.bn_mult_half
exclusive_or = refl

one_bit_set : Shift.bn_setbit a 91 ≡ (
    0xddeeff0 ∷ 0x266aaef3 ∷ 0x15667788 ∷ 0x488cd13 ∷ 0x14321001 ∷ 0x32ea61d9 ∷ 0xdef0fed
    ∷ 0x159e26af ∷ 0x1234 ∷ [])
unfolding Shift.lshift_loop Shift.bn_lshift Shift.bn_rshift Shift.bn_setbit Shift.bn_clearbit
    Shift.bn_testbit Shift.bn_xor Shift.half_loop Shift.bn_mult_half
one_bit_set = refl

one_bit_cleared : Shift.bn_clearbit a 92 ≡ (
    0xddeeff0 ∷ 0x266aaef3 ∷ 0x15667788 ∷ 0x488cd11 ∷ 0x14321001 ∷ 0x32ea61d9 ∷ 0xdef0fed
    ∷ 0x159e26af ∷ 0x1234 ∷ [])
unfolding Shift.lshift_loop Shift.bn_lshift Shift.bn_rshift Shift.bn_setbit Shift.bn_clearbit
    Shift.bn_testbit Shift.bn_xor Shift.half_loop Shift.bn_mult_half
one_bit_cleared = refl

one_bit_tested : Shift.bn_testbit a 4 ≡ 0x10
unfolding Shift.lshift_loop Shift.bn_lshift Shift.bn_rshift Shift.bn_setbit Shift.bn_clearbit
    Shift.bn_testbit Shift.bn_xor Shift.half_loop Shift.bn_mult_half
one_bit_tested = refl

times_k : Reduce.bn_mult_k a 4 prime ≡ (
    0x377bbfc0 ∷ 0x19aabbcc ∷ 0x1599de22 ∷ 0x12233445 ∷ 0x10c84004 ∷ 0xba98765 ∷ 0x37bc3fb7
    ∷ 0x16789abc ∷ 0x48d1 ∷ [])
unfolding Reduce.submul_loop Reduce.submul Reduce.bn_fast_mod Reduce.bn_mod Reduce.add_limbs
    Reduce.bn_addmod Reduce.bn_mult_k Arith.add_loop Arith.bn_add Arith.addi_loop Arith.bn_addi
    Arith.bn_normalize Arith.sub_low Arith.bn_subi Arith.subtractmod_loop Arith.bn_subtractmod
    Arith.subtract_loop Arith.bn_subtract Compare.bn_zero Compare.bn_one Compare.or_limbs
    Compare.bn_is_zero Compare.bn_is_even Compare.bn_is_odd Compare.less_bits Compare.bn_is_less
    Compare.differing Compare.bn_is_equal Compare.cmov_loop Compare.bn_cmov
times_k = refl

sum_modulo : Reduce.bn_addmod a b prime ≡ (
    0x1abcde67 ∷ 0x8d159e2 ∷ 0x1abcdf01 ∷ 0x8d159e2 ∷ 0x27140001 ∷ 0xd8134e8 ∷ 0x34869867
    ∷ 0x20ed3985 ∷ 0x2152 ∷ [])
unfolding Reduce.submul_loop Reduce.submul Reduce.bn_fast_mod Reduce.bn_mod Reduce.add_limbs
    Reduce.bn_addmod Reduce.bn_mult_k Arith.add_loop Arith.bn_add Arith.addi_loop Arith.bn_addi
    Arith.bn_normalize Arith.sub_low Arith.bn_subi Arith.subtractmod_loop Arith.bn_subtractmod
    Arith.subtract_loop Arith.bn_subtract Compare.bn_zero Compare.bn_one Compare.or_limbs
    Compare.bn_is_zero Compare.bn_is_even Compare.bn_is_odd Compare.less_bits Compare.bn_is_less
    Compare.differing Compare.bn_is_equal Compare.cmov_loop Compare.bn_cmov
sum_modulo = refl

difference : Arith.bn_subi a 5 prime ≡ (
    0xddeec1a ∷ 0x266aaeef ∷ 0x15667788 ∷ 0x488cd11 ∷ 0x14321001 ∷ 0x32ea61d9 ∷ 0xdef0fed
    ∷ 0x159e26af ∷ 0x11234 ∷ [])
unfolding Arith.add_loop Arith.bn_add Arith.addi_loop Arith.bn_addi Arith.bn_normalize Arith.sub_low
    Arith.bn_subi Arith.subtractmod_loop Arith.bn_subtractmod Arith.subtract_loop Arith.bn_subtract
difference = refl

normal_form :
    Arith.bn_normalize (0x40000001 ∷ 2 ∷ 0 ∷ 0 ∷ 0 ∷ 0 ∷ 0 ∷ 0 ∷ 0 ∷ [])
    ≡ (0x1 ∷ 0x3 ∷ 0x0 ∷ 0x0 ∷ 0x0 ∷ 0x0 ∷ 0x0 ∷ 0x0 ∷ 0x0 ∷ [])
unfolding Arith.add_loop Arith.bn_add Arith.addi_loop Arith.bn_addi Arith.bn_normalize Arith.sub_low
    Arith.bn_subi Arith.subtractmod_loop Arith.bn_subtractmod Arith.subtract_loop Arith.bn_subtract
normal_form = refl

a_is_even : Compare.bn_is_even a ≡ true
unfolding Compare.bn_zero Compare.bn_one Compare.or_limbs Compare.bn_is_zero Compare.bn_is_even
    Compare.bn_is_odd Compare.less_bits Compare.bn_is_less Compare.differing Compare.bn_is_equal
    Compare.cmov_loop Compare.bn_cmov
a_is_even = refl

b_is_odd : Compare.bn_is_odd b ≡ true
unfolding Compare.bn_zero Compare.bn_one Compare.or_limbs Compare.bn_is_zero Compare.bn_is_even
    Compare.bn_is_odd Compare.less_bits Compare.bn_is_less Compare.differing Compare.bn_is_equal
    Compare.cmov_loop Compare.bn_cmov
b_is_odd = refl

zero_is_zero : Compare.bn_is_zero Compare.bn_zero ≡ true
unfolding Compare.bn_zero Compare.bn_one Compare.or_limbs Compare.bn_is_zero Compare.bn_is_even
    Compare.bn_is_odd Compare.less_bits Compare.bn_is_less Compare.differing Compare.bn_is_equal
    Compare.cmov_loop Compare.bn_cmov
zero_is_zero = refl

digit_count : Decimal.bn_digitcount a ≡ 76
unfolding Decimal.divmod_loop Decimal.bn_divmod58 Decimal.bn_divmod1000 Decimal.digitcount_loop
    Decimal.bn_digitcount Decimal.bit_length Decimal.bitcount_loop Decimal.bn_bitcount
digit_count = refl

bit_count : Decimal.bn_bitcount a ≡ 253
unfolding Decimal.divmod_loop Decimal.bn_divmod58 Decimal.bn_divmod1000 Decimal.digitcount_loop
    Decimal.bn_digitcount Decimal.bit_length Decimal.bitcount_loop Decimal.bn_bitcount
bit_count = refl

little_endian : Bytes.bn_read_le (Bytes.bn_write_le a) ≡ (
    0xddeeff0 ∷ 0x266aaef3 ∷ 0x15667788 ∷ 0x488cd11 ∷ 0x14321001 ∷ 0x32ea61d9 ∷ 0xdef0fed
    ∷ 0x159e26af ∷ 0x1234 ∷ [])
unfolding Bytes.read_be Bytes.read_le Bytes.write_be Bytes.write_le Bytes.read_loop Bytes.bn_read_be
    Bytes.bn_read_le Bytes.write_loop Bytes.words_be Bytes.words_le Bytes.bn_write_be
    Bytes.bn_write_le Bytes.bn_read_uint32 Bytes.bn_read_uint64 Bytes.bn_write_uint32
    Bytes.bn_write_uint64
little_endian = refl

little_endian_bytes :
    Bytes.bn_write_le a
    ≡ 0xf0 ∷ 0xef ∷ 0xde ∷ 0xcd ∷ 0xbc ∷ 0xab ∷ 0x9a ∷ 0x89 ∷ 0x78 ∷ 0x67 ∷ 0x56 ∷ 0x45 ∷ 0x34
      ∷ 0x23 ∷ 0x12 ∷ 0x1 ∷ 0x10 ∷ 0x32 ∷ 0x54 ∷ 0x76 ∷ 0x98 ∷ 0xba ∷ 0xdc ∷ 0xfe ∷ 0xf0 ∷ 0xde
      ∷ 0xbc ∷ 0x9a ∷ 0x78 ∷ 0x56 ∷ 0x34 ∷ 0x12 ∷ []
unfolding Bytes.read_be Bytes.read_le Bytes.write_be Bytes.write_le Bytes.read_loop Bytes.bn_read_be
    Bytes.bn_read_le Bytes.write_loop Bytes.words_be Bytes.words_le Bytes.bn_write_be
    Bytes.bn_write_le Bytes.bn_read_uint32 Bytes.bn_read_uint64 Bytes.bn_write_uint32
    Bytes.bn_write_uint64
little_endian_bytes = refl

big_endian_bytes :
    Bytes.bn_write_be a
    ≡ 0x12 ∷ 0x34 ∷ 0x56 ∷ 0x78 ∷ 0x9a ∷ 0xbc ∷ 0xde ∷ 0xf0 ∷ 0xfe ∷ 0xdc ∷ 0xba ∷ 0x98 ∷ 0x76
      ∷ 0x54 ∷ 0x32 ∷ 0x10 ∷ 0x1 ∷ 0x12 ∷ 0x23 ∷ 0x34 ∷ 0x45 ∷ 0x56 ∷ 0x67 ∷ 0x78 ∷ 0x89 ∷ 0x9a
      ∷ 0xab ∷ 0xbc ∷ 0xcd ∷ 0xde ∷ 0xef ∷ 0xf0 ∷ []
unfolding Bytes.read_be Bytes.read_le Bytes.write_be Bytes.write_le Bytes.read_loop Bytes.bn_read_be
    Bytes.bn_read_le Bytes.write_loop Bytes.words_be Bytes.words_le Bytes.bn_write_be
    Bytes.bn_write_le Bytes.bn_read_uint32 Bytes.bn_read_uint64 Bytes.bn_write_uint32
    Bytes.bn_write_uint64
big_endian_bytes = refl

word_32 : Bytes.bn_write_uint32 (Bytes.bn_read_uint32 0xfedcba98) ≡ 0xfedcba98
unfolding Bytes.read_be Bytes.read_le Bytes.write_be Bytes.write_le Bytes.read_loop Bytes.bn_read_be
    Bytes.bn_read_le Bytes.write_loop Bytes.words_be Bytes.words_le Bytes.bn_write_be
    Bytes.bn_write_le Bytes.bn_read_uint32 Bytes.bn_read_uint64 Bytes.bn_write_uint32
    Bytes.bn_write_uint64
word_32 = refl

word_64 : Bytes.bn_write_uint64 (Bytes.bn_read_uint64 0xfedcba9876543210) ≡ 0xfedcba9876543210
unfolding Bytes.read_be Bytes.read_le Bytes.write_be Bytes.write_le Bytes.read_loop Bytes.bn_read_be
    Bytes.bn_read_le Bytes.write_loop Bytes.words_be Bytes.words_le Bytes.bn_write_be
    Bytes.bn_write_le Bytes.bn_read_uint32 Bytes.bn_read_uint64 Bytes.bn_write_uint32
    Bytes.bn_write_uint64
word_64 = refl
