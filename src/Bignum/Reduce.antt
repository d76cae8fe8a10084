-- ===== src/Bignum/Reduce.antt =====
-- Reduction of a number of nine limbs: `bn_fast_mod`, `bn_mod`, `bn_addmod` and `bn_mult_k`.
pub mod Submul
pub mod FastMod
pub mod Modular
use aex_cpp_sdk.Base.{
  ℕ, ◌+◌, ◌-◌, ◌*◌, ◌^◌, List, [], ◌∷◌, map, to_bit, get_or, u32, u64, bit_and, ◌>>◌,
}
use aex_cpp_sdk.Bignum.Compare.{bn_is_less, bn_cmov}
use aex_cpp_sdk.Bignum.Arith.{bn_subtract}

-- The rounds from the second on of the loop that takes `coef * prime` from `x`: the limbs that it
-- writes and the last `temp`. `temp` is a `uint64_t`; the constant keeps it from going below zero.
unfoldable pub submul_loop : ℕ → ℕ → List ℕ → List ℕ → List ℕ × ℕ
submul_loop coef temp [] ps = ([], temp)
submul_loop coef temp (x ∷ us) [] = ([], temp)
submul_loop coef temp (x ∷ us) (p ∷ ps) =
    let t = u64 ((temp >> 30) + (0x1FFFFFFF80000000 + x + 2 ^ 64 - u64 (p * coef))) in
    let (rest, last) = submul_loop coef t us ps in (bit_and t 0x3FFFFFFF ∷ rest, last)

-- The whole loop, the first round unrolled.
unfoldable pub submul : ℕ → List ℕ → List ℕ → List ℕ × ℕ
submul coef [] ps = ([], 0)
submul coef (x ∷ us) [] = ([], 0)
submul coef (x ∷ us) (p ∷ ps) =
    let t = u64 (0x2000000000000000 + x + 2 ^ 64 - u64 (p * coef)) in
    let (rest, last) = submul_loop coef t us ps in (bit_and t 0x3FFFFFFF ∷ rest, last)

-- `bn_fast_mod`.
unfoldable pub bn_fast_mod : List ℕ → List ℕ → List ℕ
bn_fast_mod x prime = (submul (get_or x 8 0 >> 16) x prime).0

-- `bn_mod`.
unfoldable pub bn_mod : List ℕ → List ℕ → List ℕ
bn_mod x prime = bn_cmov (to_bit (bn_is_less x prime)) x (bn_subtract x prime)

-- `a->val[i] += b->val[i]` on every limb.
unfoldable pub add_limbs : List ℕ → List ℕ → List ℕ
add_limbs [] vs = []
add_limbs (a ∷ us) [] = []
add_limbs (a ∷ us) (b ∷ vs) = u32 (a + b) ∷ add_limbs us vs

-- `bn_addmod`.
unfoldable pub bn_addmod : List ℕ → List ℕ → List ℕ → List ℕ
bn_addmod a b prime = bn_fast_mod (add_limbs a b) prime

-- `bn_mult_k`.
unfoldable pub bn_mult_k : List ℕ → ℕ → List ℕ → List ℕ
bn_mult_k x k prime = bn_fast_mod (map (λ v. u32 (k * v)) x) prime
