-- ===== src/Ecdsa/Jacobian/Negation.antt =====
-- `conditional_negate`.
use aex_cpp_sdk.Base.{
  ℕ, ◌+◌, ◌-◌, ◌*◌, ◌^◌, ◌≤◌, ◌<◌, ◌≡◌, ◌⊎◌, inl, inr, refl, sym, ap, ap₂, ◌∙◌, arith,
}
use aex_cpp_sdk.Base.{List, [], ◌∷◌, length, replicate, u32, not32, bit_and, bit_or, ◌>>◌}
use aex_cpp_sdk.Base.{bit_and-low, bit_and-zero, bit_or-zero, bit_or_comm}
use mathlib.Core.Path.{subst}
use aex_cpp_sdk.Bignum.Value.{value, IsNormal, IsBignum}
use aex_cpp_sdk.Bignum.Arith.{subtractmod_loop, bn_subtractmod}
use aex_cpp_sdk.Bignum.Arith.Differences.{bn_subtractmod_lem}
use aex_cpp_sdk.Bignum.Reduce.FastMod.{IsPrimeSize}
use aex_cpp_sdk.Bignum.Value.{AtMost}
use aex_cpp_sdk.Ecdsa.Jacobian.{negate_loop, conditional_negate}

-- What a limb becomes under a mask of ones, and under a mask of zeros.
masked_ones :
    (t a : ℕ) → t < 2 ^ 30 → bit_or (bit_and t (2 ^ 32 - 1)) (bit_and a (not32 (2 ^ 32 - 1))) ≡ t
masked_ones t a h =
    let low : bit_and t (2 ^ 32 - 1) ≡ t = omega (arith, bit_and-low 32 t) in
    ap₂ bit_or low (bit_and-zero a) ∙ bit_or-zero t

masked_zeros : (t a : ℕ) → a < 2 ^ 30 → bit_or (bit_and t 0) (bit_and a (not32 0)) ≡ a
masked_zeros t a h =
    let low : bit_and a (2 ^ 32 - 1) ≡ a = omega (arith, bit_and-low 32 a) in
    ap₂ bit_or (bit_and-zero t) low ∙ bit_or_comm 0 a ∙ bit_or-zero a

-- The loop under a mask of ones is the one of `bn_subtractmod` from zero.
negate_ones :
    (t : ℕ) (us ps : List ℕ)
    → negate_loop (2 ^ 32 - 1) t us ps ≡ subtractmod_loop t (replicate (length us) 0) us ps
unfolding negate_loop subtractmod_loop
negate_ones t [] ps = refl
negate_ones t (u ∷ us) [] = refl
negate_ones t (u ∷ us) (p ∷ ps) =
    let x = u32 (t + (0x3fffffff + 2 * p + 2 ^ 32 - u)) in
    ap₂ ◌∷◌ (masked_ones (bit_and x 0x3fffffff) u (omega (arith, bit_and-low 30 x)))
      (negate_ones (x >> 30) us ps)

negate_zeros :
    (t : ℕ) (us ps : List ℕ) → IsNormal us → length us ≡ length ps → negate_loop 0 t us ps ≡ us
unfolding negate_loop
negate_zeros t [] ps h e = refl
negate_zeros t (u ∷ us) [] h e = absurd (omega arith)
negate_zeros t (u ∷ us) (p ∷ ps) (h, hs) e =
    let x = u32 (t + (0x3fffffff + 2 * p + 2 ^ 32 - u)) in
    ap₂ ◌∷◌ (masked_zeros (bit_and x 0x3fffffff) u h)
      (negate_zeros (x >> 30) us ps hs (omega arith))

-- `conditional_negate` under a mask of all ones is the normalized difference of twice the prime
-- and the number, and under a mask of zeros it is the number, for a normalized number of at most
-- twice the normalized prime, which is below `2^256`.
pub conditional_negate_lem :
    (a prime : List ℕ)
    → IsBignum a
    → IsBignum prime
    → value prime < 2 ^ 256
    → value a ≤ 2 * value prime
    → IsBignum (conditional_negate 0xffffffff a prime)
      × (value (conditional_negate 0xffffffff a prime) + value a ≡ 2 * value prime)
      × (conditional_negate 0 a prime ≡ a)
unfolding conditional_negate bn_subtractmod
conditional_negate_lem a prime p q small h =
    let zeros : List ℕ = replicate (length a) 0 in
    let same : conditional_negate 0xffffffff a prime ≡ bn_subtractmod zeros a prime =
      negate_ones 1 a prime in
    let z : IsBignum (replicate 9 0) = record { limbs = refl; normal = omega arith } in
    let z' : IsBignum zeros = subst (λ (n : ℕ). IsBignum (replicate n 0)) (sym p.limbs) z in
    let none : value zeros ≡ 0 = ap (λ (n : ℕ). value (replicate n 0)) p.limbs in
    let s = bn_subtractmod_lem zeros a prime z' p q h (omega (arith, none)) in
    (
      subst IsBignum (sym same) s.0,
      omega (arith, ap value same, s.1, none),
      negate_zeros 1 a prime p.normal (p.limbs ∙ sym q.limbs),
    )

-- A mask of all ones or all zeros.
abbrev pub IsMask : ℕ → Type 0
IsMask cond = (cond ≡ 0) ⊎ (cond ≡ 0xffffffff)

pub conditional_negate-AtMost :
    (cond : ℕ) (a prime : List ℕ)
    → IsMask cond
    → IsPrimeSize prime
    → AtMost 2 prime a
    → AtMost 2 prime (conditional_negate cond a prime)
conditional_negate-AtMost cond a prime (inl e) v p =
    let n = conditional_negate_lem a prime p.bignum v.bignum v.below p.bound in
    subst (AtMost 2 prime) (sym n.2 ∙ ap (λ (c : ℕ). conditional_negate c a prime) (sym e)) p
conditional_negate-AtMost cond a prime (inr e) v p =
    let n = conditional_negate_lem a prime p.bignum v.bignum v.below p.bound in
    subst (λ (c : ℕ). AtMost 2 prime (conditional_negate c a prime)) (sym e)
      (record { bignum = n.0; bound = omega (arith, n.1) })
