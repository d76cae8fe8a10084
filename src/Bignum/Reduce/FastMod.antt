-- ===== src/Bignum/Reduce/FastMod.antt =====
-- `bn_fast_mod` and `bn_mod`: partial reduction, and the remainder.
use aex_cpp_sdk.Base.{ℕ, zero, suc, ◌+◌, ◌-◌, ◌*◌, ◌/◌, ◌%◌, ◌^◌, ◌≤◌, ◌<◌, ◌≡◌, sym, ap, ◌∙◌}
use aex_cpp_sdk.Base.{
  arith, List, [], ◌∷◌, length, All, IsU32, Bool, Bool-cases, inl, inr, ltb, ltb→lt, ◌>>◌,
}
use aex_cpp_sdk.Base.{if◌then◌else◌, to_bit, get_or, All-get_or}
use mathlib.Core.Path.{subst}
use native.Mathlib.Nat.{mod-eq_of_lt, mod-eq-sub-mod}
use aex_cpp_sdk.Bignum.Value.{value, radix, radix-pos, value-lt-radix, IsNormal, IsBignum}
use aex_cpp_sdk.Bignum.Compare.{bn_is_less, bn_cmov}
use aex_cpp_sdk.Bignum.Compare.Less.{bn_is_less_lem}
use aex_cpp_sdk.Bignum.Compare.Tests.{bn_cmov_lem}
use aex_cpp_sdk.Bignum.Arith.{bn_subtract}
use aex_cpp_sdk.Bignum.Arith.Differences.{bn_subtract_lem, bn_subtract-IsBignum}
use aex_cpp_sdk.Bignum.Reduce.{submul, bn_fast_mod, bn_mod}
use aex_cpp_sdk.Bignum.Reduce.Submul.{submul-value}

-- The highest limb and the rest, for limbs that are any words.
pub top-value :
    (n : ℕ) (us : List ℕ)
    → length us ≡ suc n
    → All IsU32 us
    → (radix n * get_or us n 0 ≤ value us)
      × (value us ≤ radix n * get_or us n 0 + 5 * (radix n - 1))
top-value zero [] e h = absurd (omega arith)
top-value zero (u ∷ []) e h = omega arith
top-value zero (u ∷ v ∷ us) e h = absurd (omega arith)
top-value (suc n) [] e h = absurd (omega arith)
top-value (suc n) (u ∷ us) e (h, hs) =
    let rest = top-value n us (omega arith) hs in omega (arith, rest.0, rest.1, radix-pos n)

-- A prime that the reductions are made for.
pub record IsPrimeSize (prime : List ℕ) : Type 0 where
  pub bignum : IsBignum prime
  pub above : 2 ^ 256 - 2 ^ 224 < value prime
  pub below : value prime < 2 ^ 256

-- What a multiple of such a prime can be.
pub multiple :
    (c p : ℕ)
    → 2 ^ 256 - 2 ^ 224 < p
    → p < 2 ^ 256
    → c < 2 ^ 31
    → (c * p ≤ 2 ^ 256 * c) × (2 ^ 256 * c ≤ c * p + 2 ^ 224 * c)
multiple c p above below h = (grind arith, grind arith)

pub normal-words : (us : List ℕ) → IsNormal us → All IsU32 us
normal-words [] h = tt
normal-words (u ∷ us) (h, hs) = (omega arith, normal-words us hs)

module _ (x prime : List ℕ) (nine : length x ≡ 9) (words : All IsU32 x)
    (v : IsPrimeSize prime) where
  -- The estimate of the quotient.
  abbrev coef : ℕ
  coef = get_or x 8 0 >> 16

  top_word : get_or x 8 0 < 2 ^ 32
  top_word = All-get_or IsU32 x 8 0 (omega arith) words

  x-bounds : (2 ^ 256 * coef ≤ value x) × (value x < 2 ^ 256 * coef + 2 ^ 256 + 2 ^ 243)
  x-bounds = omega (arith, top-value 8 x nine words)

  -- For nine limbs of 32 bits, normalized or not, and a normalized prime between `2^256 - 2^224` and
  -- `2^256`, `bn_fast_mod` gives a normalized number less than twice the prime, smaller than the
  -- input by the multiple of the prime that the top bits count.
  pub bn_fast_mod_lem :
      IsBignum (bn_fast_mod x prime)
      × (value (bn_fast_mod x prime) + coef * value prime ≡ value x)
      × (value (bn_fast_mod x prime) < 2 * value prime)
  unfolding bn_fast_mod
  bn_fast_mod_lem =
      let loop =
        submul-value coef x prime (omega (arith, top_word)) words v.bignum.normal
          (nine ∙ sym v.bignum.limbs) (omega (arith, nine)) in
      let out = submul coef x prime in
      let small : value out.0 < radix 9 =
        subst (λ (n : ℕ). value out.0 < radix n) (loop.2 ∙ nine) (value-lt-radix out.0 loop.1) in
      let exact : value out.0 + radix 9 * (out.1 / 2 ^ 30) + coef * value prime
          ≡ 2 ^ 31 * radix 9 + value x =
        subst
          (λ (n : ℕ).
            value out.0 + radix n * (out.1 / 2 ^ 30) + coef * value prime
            ≡ 2 ^ 31 * radix n + value x)
          nine loop.0 in
      let parts = multiple coef (value prime) v.above v.below (omega (arith, top_word)) in
      let few : coef < 2 ^ 16 = omega (arith, top_word) in
      let difference : value out.0 + coef * value prime ≡ value x = omega (arith, x-bounds) in
      (
        record { limbs = loop.2 ∙ nine; normal = loop.1 },
        difference,
        omega (arith, x-bounds, v.above),
      )

-- `bn_mod` gives the normalized remainder by the prime of a normalized number that is less than
-- twice the prime.
pub bn_mod_lem :
    (x prime : List ℕ)
    → IsBignum x
    → IsBignum prime
    → value x < 2 * value prime
    → IsBignum (bn_mod x prime) × (value (bn_mod x prime) ≡ value x % value prime)
unfolding bn_mod
bn_mod_lem x prime p q h = elim (Bool-cases (ltb (value x) (value prime))) [
  | inl less ↦
      let small : value x < value prime = ltb→lt (value x) (value prime) less in
      rw (chosen less) (p, sym (mod-eq_of_lt small))
  | inr more ↦
      let large : value prime ≤ value x = ground arith in
      let d = bn_subtract_lem x prime p q large in
      let fits : value x - value prime < value prime = omega arith in
      rw (chosen more) (d.0, d.1 ∙ sym (mod-eq-sub-mod large ∙ mod-eq_of_lt fits))
]
  where
    chosen :
        {b : Bool}
        → ltb (value x) (value prime) ≡ b
        → bn_cmov (to_bit (bn_is_less x prime)) x (bn_subtract x prime)
          ≡ (if b then x else bn_subtract x prime)
    chosen {b} e =
        ap (λ (c : Bool). bn_cmov (to_bit c) x (bn_subtract x prime))
          (bn_is_less_lem x prime p q ∙ e)
        ∙ bn_cmov_lem b x (bn_subtract x prime)
            (p.limbs ∙ sym (bn_subtract-IsBignum x prime p q).limbs) (normal-words x p.normal)
            (normal-words (bn_subtract x prime) (bn_subtract-IsBignum x prime p q).normal)
