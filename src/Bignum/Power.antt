-- ===== src/Bignum/Power.antt =====
-- Powers by repeated squaring: `bn_sqrt` and `bn_inverse`.
pub mod Bits
pub mod Exponent
use aex_cpp_sdk.Base.{ℕ, zero, suc, ◌+◌, ◌-◌, ◌^◌, List, [], ◌∷◌, Bool, ◌&&◌, ◌==◌}
use aex_cpp_sdk.Base.{if◌then◌else◌, u32, bit_and, ◌>>◌}
use aex_cpp_sdk.Bignum.Compare.{bn_one}
use aex_cpp_sdk.Bignum.Shift.{bn_rshift}
use aex_cpp_sdk.Bignum.Arith.{bn_addi}
use aex_cpp_sdk.Bignum.Reduce.{bn_mod}
use aex_cpp_sdk.Bignum.Multiply.{bn_multiply}

-- The locals `x` and `res` of the loops.
pub record Powers : Type 0 where
  pub x : List ℕ
  pub res : List ℕ

-- The inner loop on the bits of `limb`, with `left` rounds to go. In the last limb it ends early when
-- only zero bits follow.
unfoldable pub bits_loop : List ℕ → Bool → ℕ → ℕ → Powers → Powers
bits_loop prime last zero limb s = s
bits_loop prime last (suc left) limb s =
    let next = bits_loop prime last left (limb >> 1) (record {
      x = bn_multiply s.x s.x prime;
      res = if bit_and limb 1 == 1 then bn_multiply s.x s.res prime else s.res;
    }) in
    if last && limb == 0 then s else next

-- The outer loop on the limbs of the exponent, from limb `i` on.
unfoldable pub limbs_loop : List ℕ → ℕ → List ℕ → Powers → Powers
limbs_loop prime i [] s = s
limbs_loop prime i (limb ∷ limbs) s =
    limbs_loop prime (i + 1) limbs (bits_loop prime (i == 8) 30 limb s)

-- `bn_sqrt`: the power `(prime + 1) / 4`.
unfoldable pub bn_sqrt : List ℕ → List ℕ → List ℕ
bn_sqrt x prime =
    let p = bn_rshift (bn_rshift (bn_addi prime 1)) in
    bn_mod (limbs_loop prime 0 p (record { x = x; res = bn_one })).res prime

-- `limb -= 2` in the lowest limb of the exponent.
unfoldable pub minus_two : List ℕ → List ℕ
minus_two [] = []
minus_two (limb ∷ limbs) = u32 (limb + 2 ^ 32 - 2) ∷ limbs

-- `bn_inverse`: the power `prime - 2`.
unfoldable pub bn_inverse : List ℕ → List ℕ → List ℕ
bn_inverse x prime =
    bn_mod (limbs_loop prime 0 (minus_two prime) (record { x = x; res = bn_one })).res prime
