-- ===== src/Tests/Curves.antt =====
-- Runs of the curve on secp256k1, against points that were computed elsewhere.
use aex_cpp_sdk.Base.{[], ◌∷◌, ◌≡◌, refl}
use aex_cpp_sdk.Bignum.Compare
use aex_cpp_sdk.Bignum.Shift
use aex_cpp_sdk.Bignum.Arith
use aex_cpp_sdk.Bignum.Reduce
use aex_cpp_sdk.Bignum.Multiply
use aex_cpp_sdk.Bignum.Power
use aex_cpp_sdk.Ecdsa.Curve
use aex_cpp_sdk.Ecdsa.Point
use aex_cpp_sdk.Ecdsa.Jacobian

-- No table.
abbrev curve : Curve.Curve
unfolding Curve.secp256k1
curve = Curve.secp256k1 (λ i j. record { x = []; y = [] })

double : Point.point_double curve curve.generator ≡ record {
  x =
      0x1c709ee5 ∷ 0x2eb026e5 ∷ 0xef3ca7a ∷ 0x1de392e3 ∷ 0x7cd85c ∷ 0x1501ba57 ∷ 0x17d6d304
      ∷ 0x1fe5107b ∷ 0xc604 ∷ [];
  y =
      0x10cfe52a ∷ 0xd90c6a5 ∷ 0x266d0e12 ∷ 0x3d8c994c ∷ 0x2ceaeef7 ∷ 0x16106519 ∷ 0x1c339a3c
      ∷ 0x1a3fa98f ∷ 0x1ae1 ∷ [];
}
unfolding Compare.bn_zero Compare.bn_one Compare.or_limbs Compare.bn_is_zero Compare.bn_is_even
    Compare.bn_is_odd Compare.less_bits Compare.bn_is_less Compare.differing Compare.bn_is_equal
    Compare.cmov_loop Compare.bn_cmov Shift.lshift_loop Shift.bn_lshift Shift.bn_rshift
    Shift.bn_setbit Shift.bn_clearbit Shift.bn_testbit Shift.bn_xor Shift.half_loop
    Shift.bn_mult_half Arith.add_loop Arith.bn_add Arith.addi_loop Arith.bn_addi Arith.bn_normalize
    Arith.sub_low Arith.bn_subi Arith.subtractmod_loop Arith.bn_subtractmod Arith.subtract_loop
    Arith.bn_subtract Reduce.submul_loop Reduce.submul Reduce.bn_fast_mod Reduce.bn_mod
    Reduce.add_limbs Reduce.bn_addmod Reduce.bn_mult_k Multiply.column Multiply.long_loop
    Multiply.bn_multiply_long Multiply.bn_multiply_reduce_step Multiply.reduce_loop
    Multiply.bn_multiply_reduce Multiply.bn_multiply Power.bits_loop Power.limbs_loop Power.bn_sqrt
    Power.minus_two Power.bn_inverse Curve.secp256k1 Point.infinity Point.point_is_infinity
    Point.point_is_equal Point.point_is_negative_of Point.chord Point.point_double Point.point_add
double = refl

triple :
    Point.point_add curve curve.generator (record {
      x =
          0x1c709ee5 ∷ 0x2eb026e5 ∷ 0xef3ca7a ∷ 0x1de392e3 ∷ 0x7cd85c ∷ 0x1501ba57 ∷ 0x17d6d304
          ∷ 0x1fe5107b ∷ 0xc604 ∷ [];
      y =
          0x10cfe52a ∷ 0xd90c6a5 ∷ 0x266d0e12 ∷ 0x3d8c994c ∷ 0x2ceaeef7 ∷ 0x16106519 ∷ 0x1c339a3c
          ∷ 0x1a3fa98f ∷ 0x1ae1 ∷ [];
    })
    ≡ record {
      x =
          0x3ce036f9 ∷ 0x1807c44e ∷ 0x36f99b08 ∷ 0xc721160 ∷ 0x1d5229b5 ∷ 0x113e17e2 ∷ 0xc310493
          ∷ 0x22806496 ∷ 0xf930 ∷ [];
      y =
          0x4b8e672 ∷ 0x32e7f5d6 ∷ 0xc2231b6 ∷ 0x2a664d ∷ 0x37f35665 ∷ 0xcdf98a8 ∷ 0x1e8140fe
          ∷ 0x1ec3d8cb ∷ 0x388f ∷ [];
    }
unfolding Compare.bn_zero Compare.bn_one Compare.or_limbs Compare.bn_is_zero Compare.bn_is_even
    Compare.bn_is_odd Compare.less_bits Compare.bn_is_less Compare.differing Compare.bn_is_equal
    Compare.cmov_loop Compare.bn_cmov Shift.lshift_loop Shift.bn_lshift Shift.bn_rshift
    Shift.bn_setbit Shift.bn_clearbit Shift.bn_testbit Shift.bn_xor Shift.half_loop
    Shift.bn_mult_half Arith.add_loop Arith.bn_add Arith.addi_loop Arith.bn_addi Arith.bn_normalize
    Arith.sub_low Arith.bn_subi Arith.subtractmod_loop Arith.bn_subtractmod Arith.subtract_loop
    Arith.bn_subtract Reduce.submul_loop Reduce.submul Reduce.bn_fast_mod Reduce.bn_mod
    Reduce.add_limbs Reduce.bn_addmod Reduce.bn_mult_k Multiply.column Multiply.long_loop
    Multiply.bn_multiply_long Multiply.bn_multiply_reduce_step Multiply.reduce_loop
    Multiply.bn_multiply_reduce Multiply.bn_multiply Power.bits_loop Power.limbs_loop Power.bn_sqrt
    Power.minus_two Power.bn_inverse Curve.secp256k1 Point.infinity Point.point_is_infinity
    Point.point_is_equal Point.point_is_negative_of Point.chord Point.point_double Point.point_add
triple = refl

-- `2 G + G` and `2 (2 G)` with a denominator.
mixed_sum :
    Jacobian.jacobian_to_curve
      (Jacobian.point_jacobian_add curve.generator
        (Jacobian.at_denominator
          (0x10abcdef ∷ 0x8d159e2 ∷ 0x2adbeef1 ∷ 0x155577 ∷ 0x0 ∷ 0x0 ∷ 0x0 ∷ 0x0 ∷ 0x0 ∷ [])
          (record {
            x =
                0x1c709ee5 ∷ 0x2eb026e5 ∷ 0xef3ca7a ∷ 0x1de392e3 ∷ 0x7cd85c ∷ 0x1501ba57
                ∷ 0x17d6d304 ∷ 0x1fe5107b ∷ 0xc604 ∷ [];
            y =
                0x10cfe52a ∷ 0xd90c6a5 ∷ 0x266d0e12 ∷ 0x3d8c994c ∷ 0x2ceaeef7 ∷ 0x16106519
                ∷ 0x1c339a3c ∷ 0x1a3fa98f ∷ 0x1ae1 ∷ [];
          })
          curve.prime)
        curve)
      curve.prime
    ≡ record {
      x =
          0x3ce036f9 ∷ 0x1807c44e ∷ 0x36f99b08 ∷ 0xc721160 ∷ 0x1d5229b5 ∷ 0x113e17e2 ∷ 0xc310493
          ∷ 0x22806496 ∷ 0xf930 ∷ [];
      y =
          0x4b8e672 ∷ 0x32e7f5d6 ∷ 0xc2231b6 ∷ 0x2a664d ∷ 0x37f35665 ∷ 0xcdf98a8 ∷ 0x1e8140fe
          ∷ 0x1ec3d8cb ∷ 0x388f ∷ [];
    }
unfolding Compare.bn_zero Compare.bn_one Compare.or_limbs Compare.bn_is_zero Compare.bn_is_even
    Compare.bn_is_odd Compare.less_bits Compare.bn_is_less Compare.differing Compare.bn_is_equal
    Compare.cmov_loop Compare.bn_cmov Shift.lshift_loop Shift.bn_lshift Shift.bn_rshift
    Shift.bn_setbit Shift.bn_clearbit Shift.bn_testbit Shift.bn_xor Shift.half_loop
    Shift.bn_mult_half Arith.add_loop Arith.bn_add Arith.addi_loop Arith.bn_addi Arith.bn_normalize
    Arith.sub_low Arith.bn_subi Arith.subtractmod_loop Arith.bn_subtractmod Arith.subtract_loop
    Arith.bn_subtract Reduce.submul_loop Reduce.submul Reduce.bn_fast_mod Reduce.bn_mod
    Reduce.add_limbs Reduce.bn_addmod Reduce.bn_mult_k Multiply.column Multiply.long_loop
    Multiply.bn_multiply_long Multiply.bn_multiply_reduce_step Multiply.reduce_loop
    Multiply.bn_multiply_reduce Multiply.bn_multiply Power.bits_loop Power.limbs_loop Power.bn_sqrt
    Power.minus_two Power.bn_inverse Curve.secp256k1 Point.infinity Point.point_is_infinity
    Point.point_is_equal Point.point_is_negative_of Point.chord Point.point_double Point.point_add
    Jacobian.negate_loop Jacobian.conditional_negate Jacobian.generate_k_random
    Jacobian.at_denominator Jacobian.curve_to_jacobian Jacobian.jacobian_to_curve
    Jacobian.point_jacobian_add Jacobian.point_jacobian_double
mixed_sum = refl

mixed_double :
    Jacobian.jacobian_to_curve
      (Jacobian.point_jacobian_double
        (Jacobian.at_denominator
          (0x10abcdef ∷ 0x8d159e2 ∷ 0x2adbeef1 ∷ 0x155577 ∷ 0x0 ∷ 0x0 ∷ 0x0 ∷ 0x0 ∷ 0x0 ∷ [])
          (record {
            x =
                0x1c709ee5 ∷ 0x2eb026e5 ∷ 0xef3ca7a ∷ 0x1de392e3 ∷ 0x7cd85c ∷ 0x1501ba57
                ∷ 0x17d6d304 ∷ 0x1fe5107b ∷ 0xc604 ∷ [];
            y =
                0x10cfe52a ∷ 0xd90c6a5 ∷ 0x266d0e12 ∷ 0x3d8c994c ∷ 0x2ceaeef7 ∷ 0x16106519
                ∷ 0x1c339a3c ∷ 0x1a3fa98f ∷ 0x1ae1 ∷ [];
          })
          curve.prime)
        curve)
      curve.prime
    ≡ record {
      x =
          0x28c4cd13 ∷ 0x13ea52af ∷ 0x2e075847 ∷ 0x1b04e403 ∷ 0xb1404cc ∷ 0x3924124c ∷ 0x180f3581
          ∷ 0x36fc7043 ∷ 0xe493 ∷ [];
      y =
          0x7739922 ∷ 0x3fa5ef71 ∷ 0x3bdfe40c ∷ 0x19eb8cef ∷ 0x251448d9 ∷ 0xb88263a ∷ 0x55b7564
          ∷ 0x264fa835 ∷ 0x51ed ∷ [];
    }
unfolding Compare.bn_zero Compare.bn_one Compare.or_limbs Compare.bn_is_zero Compare.bn_is_even
    Compare.bn_is_odd Compare.less_bits Compare.bn_is_less Compare.differing Compare.bn_is_equal
    Compare.cmov_loop Compare.bn_cmov Shift.lshift_loop Shift.bn_lshift Shift.bn_rshift
    Shift.bn_setbit Shift.bn_clearbit Shift.bn_testbit Shift.bn_xor Shift.half_loop
    Shift.bn_mult_half Arith.add_loop Arith.bn_add Arith.addi_loop Arith.bn_addi Arith.bn_normalize
    Arith.sub_low Arith.bn_subi Arith.subtractmod_loop Arith.bn_subtractmod Arith.subtract_loop
    Arith.bn_subtract Reduce.submul_loop Reduce.submul Reduce.bn_fast_mod Reduce.bn_mod
    Reduce.add_limbs Reduce.bn_addmod Reduce.bn_mult_k Multiply.column Multiply.long_loop
    Multiply.bn_multiply_long Multiply.bn_multiply_reduce_step Multiply.reduce_loop
    Multiply.bn_multiply_reduce Multiply.bn_multiply Power.bits_loop Power.limbs_loop Power.bn_sqrt
    Power.minus_two Power.bn_inverse Curve.secp256k1 Point.infinity Point.point_is_infinity
    Point.point_is_equal Point.point_is_negative_of Point.chord Point.point_double Point.point_add
    Jacobian.negate_loop Jacobian.conditional_negate Jacobian.generate_k_random
    Jacobian.at_denominator Jacobian.curve_to_jacobian Jacobian.jacobian_to_curve
    Jacobian.point_jacobian_add Jacobian.point_jacobian_double
mixed_double = refl

-- The sum that is a double.
same_sum :
    Jacobian.jacobian_to_curve
      (Jacobian.point_jacobian_add
        (record {
          x =
              0x1c709ee5 ∷ 0x2eb026e5 ∷ 0xef3ca7a ∷ 0x1de392e3 ∷ 0x7cd85c ∷ 0x1501ba57 ∷ 0x17d6d304
              ∷ 0x1fe5107b ∷ 0xc604 ∷ [];
          y =
              0x10cfe52a ∷ 0xd90c6a5 ∷ 0x266d0e12 ∷ 0x3d8c994c ∷ 0x2ceaeef7 ∷ 0x16106519
              ∷ 0x1c339a3c ∷ 0x1a3fa98f ∷ 0x1ae1 ∷ [];
        })
        (Jacobian.at_denominator
          (0x10abcdef ∷ 0x8d159e2 ∷ 0x2adbeef1 ∷ 0x155577 ∷ 0x0 ∷ 0x0 ∷ 0x0 ∷ 0x0 ∷ 0x0 ∷ [])
          (record {
            x =
                0x1c709ee5 ∷ 0x2eb026e5 ∷ 0xef3ca7a ∷ 0x1de392e3 ∷ 0x7cd85c ∷ 0x1501ba57
                ∷ 0x17d6d304 ∷ 0x1fe5107b ∷ 0xc604 ∷ [];
            y =
                0x10cfe52a ∷ 0xd90c6a5 ∷ 0x266d0e12 ∷ 0x3d8c994c ∷ 0x2ceaeef7 ∷ 0x16106519
                ∷ 0x1c339a3c ∷ 0x1a3fa98f ∷ 0x1ae1 ∷ [];
          })
          curve.prime)
        curve)
      curve.prime
    ≡ record {
      x =
          0x28c4cd13 ∷ 0x13ea52af ∷ 0x2e075847 ∷ 0x1b04e403 ∷ 0xb1404cc ∷ 0x3924124c ∷ 0x180f3581
          ∷ 0x36fc7043 ∷ 0xe493 ∷ [];
      y =
          0x7739922 ∷ 0x3fa5ef71 ∷ 0x3bdfe40c ∷ 0x19eb8cef ∷ 0x251448d9 ∷ 0xb88263a ∷ 0x55b7564
          ∷ 0x264fa835 ∷ 0x51ed ∷ [];
    }
unfolding Compare.bn_zero Compare.bn_one Compare.or_limbs Compare.bn_is_zero Compare.bn_is_even
    Compare.bn_is_odd Compare.less_bits Compare.bn_is_less Compare.differing Compare.bn_is_equal
    Compare.cmov_loop Compare.bn_cmov Shift.lshift_loop Shift.bn_lshift Shift.bn_rshift
    Shift.bn_setbit Shift.bn_clearbit Shift.bn_testbit Shift.bn_xor Shift.half_loop
    Shift.bn_mult_half Arith.add_loop Arith.bn_add Arith.addi_loop Arith.bn_addi Arith.bn_normalize
    Arith.sub_low Arith.bn_subi Arith.subtractmod_loop Arith.bn_subtractmod Arith.subtract_loop
    Arith.bn_subtract Reduce.submul_loop Reduce.submul Reduce.bn_fast_mod Reduce.bn_mod
    Reduce.add_limbs Reduce.bn_addmod Reduce.bn_mult_k Multiply.column Multiply.long_loop
    Multiply.bn_multiply_long Multiply.bn_multiply_reduce_step Multiply.reduce_loop
    Multiply.bn_multiply_reduce Multiply.bn_multiply Power.bits_loop Power.limbs_loop Power.bn_sqrt
    Power.minus_two Power.bn_inverse Curve.secp256k1 Point.infinity Point.point_is_infinity
    Point.point_is_equal Point.point_is_negative_of Point.chord Point.point_double Point.point_add
    Jacobian.negate_loop Jacobian.conditional_negate Jacobian.generate_k_random
    Jacobian.at_denominator Jacobian.curve_to_jacobian Jacobian.jacobian_to_curve
    Jacobian.point_jacobian_add Jacobian.point_jacobian_double
same_sum = refl
