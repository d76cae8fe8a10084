-- ===== src/Bignum/Arith/Differences.antt =====
-- `bn_subtract`, `bn_subtractmod` and `bn_subi` subtract, modulo `2^270`, with no limb below zero.
use aex_cpp_sdk.Base.{ℕ, suc, ◌+◌, ◌-◌, ◌*◌, ◌%◌, ◌^◌, ◌≤◌, ◌<◌, ◌≡◌, refl, sym, ap, ◌∙◌}
use aex_cpp_sdk.Base.{arith, List, [], ◌∷◌, length, u32, ◌>>◌}
use mathlib.Core.Path.{subst}
use aex_cpp_sdk.Bignum.Value.{value, radix, radix-pos, value-lt-radix, IsNormal, IsBignum}
use aex_cpp_sdk.Bignum.Arith.{subtract_loop, bn_subtract, subtractmod_loop, bn_subtractmod}
use aex_cpp_sdk.Bignum.Arith.Sums.{limb-value, limb-lt}

subtract_loop-value :
    (t : ℕ) (us vs : List ℕ)
    → t ≤ 2
    → IsNormal us
    → IsNormal vs
    → length us ≡ length vs
    → value (subtract_loop t us vs)
      ≡ (t + value us + (radix (length us) - 1) - value vs) % radix (length us)
unfolding subtract_loop
subtract_loop-value t [] [] small p q n = omega arith
subtract_loop-value t [] (v ∷ vs) small p q n = absurd (omega arith)
subtract_loop-value t (u ∷ us) [] small p q n = absurd (omega arith)
subtract_loop-value t (u ∷ us) (v ∷ vs) small (p, ps) (q, qs) n =
    limb-value (radix (length us)) x (value us + (radix (length us) - 1) - value vs)
      (radix-pos (length us))
      (subtract_loop-value (x >> 30) us vs (omega arith) ps qs (omega arith)) (omega (arith, below))
      (omega (arith, below, radix-pos (length us)))
  where
    x : ℕ
    x = u32 (t + (0x3FFFFFFF + u + 2 ^ 32 - v))

    below : value vs < radix (length us)
    below = subst (λ (k : ℕ). value vs < radix k) (sym same) (value-lt-radix vs qs)
      where
        same : length us ≡ length vs
        same = omega arith

subtract_loop-IsNormal :
    (t : ℕ) (us vs : List ℕ)
    → length us ≡ length vs
    → IsNormal (subtract_loop t us vs) × (length (subtract_loop t us vs) ≡ length us)
unfolding subtract_loop
subtract_loop-IsNormal t [] vs n = (tt, refl)
subtract_loop-IsNormal t (u ∷ us) [] n = absurd (omega arith)
subtract_loop-IsNormal t (u ∷ us) (v ∷ vs) n =
    let rest =
      subtract_loop-IsNormal (u32 (t + (0x3FFFFFFF + u + 2 ^ 32 - v)) >> 30) us vs (omega arith) in
    ((limb-lt _, rest.0), ap suc rest.1)

-- The result is normalized, whatever the numbers.
pub bn_subtract-IsBignum : (a b : List ℕ) → IsBignum a → IsBignum b → IsBignum (bn_subtract a b)
unfolding bn_subtract
bn_subtract-IsBignum a b p q =
    let shape = subtract_loop-IsNormal 1 a b (p.limbs ∙ sym q.limbs) in
    record { limbs = shape.1 ∙ p.limbs; normal = shape.0 }

-- `bn_subtract` of normalized numbers, the second at most the first, is their normalized
-- difference.
pub bn_subtract_lem :
    (a b : List ℕ)
    → IsBignum a
    → IsBignum b
    → value b ≤ value a
    → IsBignum (bn_subtract a b) × (value (bn_subtract a b) ≡ value a - value b)
unfolding bn_subtract
bn_subtract_lem a b p q h =
    let same : length a ≡ length b = p.limbs ∙ sym q.limbs in
    let small : value a < radix 9 =
      subst (λ (n : ℕ). value a < radix n) p.limbs (value-lt-radix a p.normal) in
    (
      bn_subtract-IsBignum a b p q,
      subtract_loop-value 1 a b (omega arith) p.normal q.normal same
          ∙ ap (λ (n : ℕ). (1 + value a + (radix n - 1) - value b) % radix n) p.limbs
          ∙ omega arith,
    )

subtractmod_loop-value :
    (t : ℕ) (us vs ps : List ℕ)
    → t ≤ 3
    → IsNormal us
    → IsNormal vs
    → IsNormal ps
    → length us ≡ length vs
    → length us ≡ length ps
    → value (subtractmod_loop t us vs ps)
      ≡ (t + value us + 2 * value ps + (radix (length us) - 1) - value vs) % radix (length us)
unfolding subtractmod_loop
subtractmod_loop-value t [] [] [] small hu hv hp n m = omega arith
subtractmod_loop-value t [] [] (p ∷ ps) small hu hv hp n m = absurd (omega arith)
subtractmod_loop-value t [] (v ∷ vs) ps small hu hv hp n m = absurd (omega arith)
subtractmod_loop-value t (u ∷ us) [] ps small hu hv hp n m = absurd (omega arith)
subtractmod_loop-value t (u ∷ us) (v ∷ vs) [] small hu hv hp n m = absurd (omega arith)
subtractmod_loop-value t (u ∷ us) (v ∷ vs) (p ∷ ps) small (hu, hus) (hv, hvs) (hp, hps) n m =
    limb-value (radix (length us)) x (value us + 2 * value ps + (radix (length us) - 1) - value vs)
      (radix-pos (length us))
      (subtractmod_loop-value (x >> 30) us vs ps (omega arith) hus hvs hps (omega arith)
        (omega arith))
      (omega (arith, below)) (omega (arith, below, radix-pos (length us)))
  where
    x : ℕ
    x = u32 (t + (0x3FFFFFFF + u + 2 * p + 2 ^ 32 - v))

    below : value vs < radix (length us)
    below = subst (λ (k : ℕ). value vs < radix k) (sym same) (value-lt-radix vs hvs)
      where
        same : length us ≡ length vs
        same = omega arith

subtractmod_loop-IsNormal :
    (t : ℕ) (us vs ps : List ℕ)
    → length us ≡ length vs
    → length us ≡ length ps
    → IsNormal (subtractmod_loop t us vs ps) × (length (subtractmod_loop t us vs ps) ≡ length us)
unfolding subtractmod_loop
subtractmod_loop-IsNormal t [] vs ps n m = (tt, refl)
subtractmod_loop-IsNormal t (u ∷ us) [] ps n m = absurd (omega arith)
subtractmod_loop-IsNormal t (u ∷ us) (v ∷ vs) [] n m = absurd (omega arith)
subtractmod_loop-IsNormal t (u ∷ us) (v ∷ vs) (p ∷ ps) n m =
    let rest =
      subtractmod_loop-IsNormal (u32 (t + (0x3FFFFFFF + u + 2 * p + 2 ^ 32 - v)) >> 30) us vs ps
        (omega arith) (omega arith) in
    ((limb-lt _, rest.0), ap suc rest.1)

-- `bn_subtractmod` of normalized `a`, `b` and `prime`, with `b` at most twice the prime and `a + 2
-- * prime` below `2^270`, is the normalized `a + 2 * prime - b`.
pub bn_subtractmod_lem :
    (a b prime : List ℕ)
    → IsBignum a
    → IsBignum b
    → IsBignum prime
    → value b ≤ 2 * value prime
    → value a + 2 * value prime < 2 ^ 270
    → IsBignum (bn_subtractmod a b prime)
      × (value (bn_subtractmod a b prime) ≡ value a + 2 * value prime - value b)
unfolding bn_subtractmod
bn_subtractmod_lem a b prime p q r h fits =
    let same : length a ≡ length b = p.limbs ∙ sym q.limbs in
    let same' : length a ≡ length prime = p.limbs ∙ sym r.limbs in
    let shape = subtractmod_loop-IsNormal 1 a b prime same same' in
    (
      record { limbs = shape.1 ∙ p.limbs; normal = shape.0 },
      subtractmod_loop-value 1 a b prime (omega arith) p.normal q.normal r.normal same same'
          ∙ ap (λ (n : ℕ). (1 + value a + 2 * value prime + (radix n - 1) - value b) % radix n)
              p.limbs
          ∙ omega arith,
    )
