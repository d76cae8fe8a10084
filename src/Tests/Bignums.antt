-- ===== src/Tests/Bignums.antt =====
-- The number library on concrete numbers.
use aex_cpp_sdk.Base.{
  List, ℕ, [], ◌∷◌, ◌++◌, ◌+◌, ◌-◌, ◌*◌, ◌/◌, ◌%◌, ◌≡◌, ◌^◌, ◌<◌, refl, arith, replicate,
}
use aex_cpp_sdk.Base.{get_or, ◌>>◌}
use aex_cpp_sdk.Bignum.Value.{value, IsBignum, AtMost}
use aex_cpp_sdk.Bignum.Multiply.{bn_multiply}
use aex_cpp_sdk.Bignum.Multiply.Product.{bn_multiply_lem}
use aex_cpp_sdk.Bignum.Power.{bn_inverse, bn_sqrt}
use aex_cpp_sdk.Bignum.Power.Exponent.{bn_inverse_lem, bn_sqrt_lem}
use aex_cpp_sdk.Bignum.Bytes.{bn_read_be, bn_write_be}
use aex_cpp_sdk.Bignum.Bytes.Write.{bn_read_be-bn_write_be}
use aex_cpp_sdk.Bignum.Reduce.{bn_fast_mod}
use aex_cpp_sdk.Bignum.Reduce.FastMod.{IsPrimeSize, bn_fast_mod_lem}

-- The field prime of secp256k1.
abbrev prime : List ℕ
prime =
    0x3ffffc2f ∷ 0x3ffffffb ∷ 0x3fffffff ∷ 0x3fffffff ∷ 0x3fffffff ∷ 0x3fffffff ∷ 0x3fffffff
    ∷ 0x3fffffff ∷ 0xffff ∷ []

abbrev small : List ℕ
small = 123456789 ∷ 42 ∷ 0x3fffffff ∷ replicate 6 0

-- Limbs that are not normalized.
abbrev wide : List ℕ
wide = 0xffffffff ∷ replicate 7 0x7fffffff ++ (0x12345678 ∷ [])

prime-IsBignum : IsBignum prime
prime-IsBignum = record { limbs = refl; normal = omega arith }

small-IsBignum : IsBignum small
small-IsBignum = record { limbs = refl; normal = omega arith }

prime-IsPrimeSize : IsPrimeSize prime
prime-IsPrimeSize = record { bignum = prime-IsBignum; above = omega arith; below = omega arith }

bn_read_be-bn_write_be_example : bn_read_be (bn_write_be small) ≡ small
bn_read_be-bn_write_be_example = bn_read_be-bn_write_be small small-IsBignum (omega arith)

bn_fast_mod_lem_example :
    IsBignum (bn_fast_mod wide prime)
    × (value (bn_fast_mod wide prime) + (get_or wide 8 0 >> 16) * value prime ≡ value wide)
    × (value (bn_fast_mod wide prime) < 2 * value prime)
bn_fast_mod_lem_example = bn_fast_mod_lem wide prime refl (omega arith) prime-IsPrimeSize

small-AtMost : AtMost 8 prime small
small-AtMost = record { bignum = small-IsBignum; bound = omega arith }

bn_multiply_lem_example :
    IsBignum (bn_multiply small small prime)
    × (value (bn_multiply small small prime) < 2 * value prime)
    × (value (bn_multiply small small prime) % value prime
        ≡ value small * value small % value prime)
bn_multiply_lem_example =
    bn_multiply_lem small small prime small-IsBignum small-IsBignum prime-IsPrimeSize (omega arith)

bn_inverse_lem_example :
    IsBignum (bn_inverse small prime)
    × (value (bn_inverse small prime) ≡ value small ^ (value prime - 2) % value prime)
bn_inverse_lem_example = bn_inverse_lem small prime prime-IsPrimeSize (omega arith) small-AtMost

bn_sqrt_lem_example :
    IsBignum (bn_sqrt small prime)
    × (value (bn_sqrt small prime) ≡ value small ^ ((value prime + 1) / 4) % value prime)
bn_sqrt_lem_example = bn_sqrt_lem small prime prime-IsPrimeSize small-AtMost
