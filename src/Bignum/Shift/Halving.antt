-- ===== src/Bignum/Shift/Halving.antt =====
-- `bn_mult_half` halves modulo a prime, and `bn_lshift` doubles.
use aex_cpp_sdk.Base.{
  ℕ, zero, suc, ◌+◌, ◌-◌, ◌*◌, ◌/◌, ◌%◌, ◌^◌, ◌≤◌, ◌<◌, ◌≡◌, refl, sym, ap, ap₂, ◌∙◌,
}
use aex_cpp_sdk.Base.{
  arith, List, [], ◌∷◌, length, bit_and, bit_or, bit_and-low, u32, neg32, ◌<<◌, ◌>>◌,
}
use mathlib.Core.Path.{subst}
use native.Mathlib.Nat.{pow-suc}
use aex_cpp_sdk.Base.{
  bit_cases, bit_and-zero, bit_and_step, bit_or-fields, mul-two-pow-suc, div-two-pow-suc, inl, inr,
}
use aex_cpp_sdk.Bignum.Value.{value, radix, radix-pos, mod-limb, IsNormal, IsBignum}
use aex_cpp_sdk.Bignum.Arith.Sums.{limb-lt}
use aex_cpp_sdk.Bignum.Shift.{lshift_loop, bn_lshift, half_loop, bn_mult_half}

-- A mask of all ones or all zeros, on limbs.
abbrev Masks : ℕ → ℕ → Type 0
Masks xodd e = (p : ℕ) → p < 2 ^ 30 → bit_and p xodd ≡ e * p

half_loop-value :
    (xodd e tmp1 : ℕ) (us ps : List ℕ)
    → e ≤ 1
    → Masks xodd e
    → tmp1 < 2 ^ 31
    → IsNormal us
    → IsNormal ps
    → length us ≡ length ps
    → (value (half_loop xodd tmp1 us ps) ≡ tmp1 + 2 ^ 29 * (value us + e * value ps))
      × (length (half_loop xodd tmp1 us ps) ≡ suc (length us))
      × (tmp1 + 2 ^ 29 * (value us + e * value ps) < radix (suc (length us))
          → IsNormal (half_loop xodd tmp1 us ps))
unfolding half_loop
half_loop-value xodd e tmp1 [] [] one mask small p q n = (omega arith, refl, λ h. (omega arith, tt))
half_loop-value xodd e tmp1 [] (v ∷ ps) one mask small p q n = absurd (omega arith)
half_loop-value xodd e tmp1 (u ∷ us) [] one mask small p q n = absurd (omega arith)
half_loop-value xodd e tmp1 (u ∷ us) (v ∷ ps) one mask small (p, ps') (q, qs) n =
    let tmp2 = u32 (u + bit_and v xodd) in
    let t = u32 (tmp1 + u32 (bit_and tmp2 1 << 29)) in
    let masked : bit_and v xodd ≡ e * v = mask v q in
    let few : e * v ≤ v = grind arith in
    let low = bit_and-low 1 tmp2 in
    let rest =
      half_loop-value xodd e (u32 ((t >> 30) + (tmp2 >> 1))) us ps one mask (omega arith) ps' qs
        (omega arith) in
    let split : e * (v + 2 ^ 30 * value ps) ≡ e * v + 2 ^ 30 * (e * value ps) = grind arith in
    let total : u + 2 ^ 30 * value us + e * (v + 2 ^ 30 * value ps)
        ≡ tmp2 + 2 ^ 30 * (value us + e * value ps) =
      omega (arith, masked, few, split) in
    let all : value (half_loop xodd tmp1 (u ∷ us) (v ∷ ps))
        ≡ tmp1 + 2 ^ 29 * (tmp2 + 2 ^ 30 * (value us + e * value ps)) =
      omega (arith, rest.0, bit_and-low 30 t, low) in
    (
      omega (arith, all, total),
      ap suc rest.1,
      λ h. (limb-lt t, rest.2 (omega (arith, h, all, total, rest.0, rest.1))),
    )

mask_of : (x : ℕ) → Masks (neg32 (bit_and x 1)) (x % 2)
mask_of x p h = elim (bit_cases (x % 2) (omega arith)) [
  | inl e ↦
      let m : neg32 (bit_and x 1) ≡ 0 = omega (arith, bit_and-low 1 x) in
      let none : 0 ≡ x % 2 * p = omega (arith, ap (λ (t : ℕ). t * p) e) in
      ap (bit_and p) m ∙ bit_and-zero p ∙ none
  | inr e ↦
      let m : neg32 (bit_and x 1) ≡ 2 ^ 32 - 1 = omega (arith, bit_and-low 1 x) in
      let all : bit_and p (2 ^ 32 - 1) ≡ 1 * p = omega (arith, bit_and-low 32 p) in
      ap (bit_and p) m ∙ all ∙ ap (λ (t : ℕ). t * p) (sym e)
]

-- `bn_mult_half` of a normalized number is the normalized half of it, or of its sum with the prime
-- if it is odd, for an odd normalized prime and a sum below `2^270`.
pub bn_mult_half_lem :
    (a prime : List ℕ)
    → IsBignum a
    → IsBignum prime
    → value prime % 2 ≡ 1
    → value a + value prime < 2 ^ 270
    → IsBignum (bn_mult_half a prime)
      × (2 * value (bn_mult_half a prime) ≡ value a + value a % 2 * value prime)
unfolding bn_mult_half
bn_mult_half_lem [] prime p q odd fits = absurd (omega (arith, p.limbs))
bn_mult_half_lem (x ∷ us) [] p q odd fits = absurd (omega (arith, q.limbs))
bn_mult_half_lem (x ∷ us) (l ∷ ls) p q odd fits =
    let xodd = neg32 (bit_and x 1) in
    let e = x % 2 in
    let masked : bit_and l xodd ≡ e * l = mask_of x l q.normal.0 in
    let few : e * l ≤ l = grind arith in
    let even : (x + e * l) % 2 ≡ 0 = even_sum x l (omega (arith, odd)) in
    let tmp1 = u32 (x + bit_and l xodd) >> 1 in
    let tmp1_value : 2 * tmp1 ≡ x + e * l =
      omega (arith, masked, few, even, p.normal.0, q.normal.0) in
    let same : length us ≡ length ls = omega (arith, p.limbs, q.limbs) in
    let loop =
      half_loop-value xodd e tmp1 us ls (omega arith) (mask_of x)
        (omega (arith, tmp1_value, few, p.normal.0, q.normal.0)) p.normal.1 q.normal.1 same in
    let out = value (half_loop xodd tmp1 us ls) in
    let split : e * (l + 2 ^ 30 * value ls) ≡ e * l + 2 ^ 30 * (e * value ls) = grind arith in
    let parity : (x + 2 ^ 30 * value us) % 2 ≡ e = omega arith in
    let total : 2 * out ≡ x + 2 ^ 30 * value us + e * (l + 2 ^ 30 * value ls) =
      omega (arith, loop.0, tmp1_value, split) in
    let small : e * (l + 2 ^ 30 * value ls) ≤ l + 2 ^ 30 * value ls =
      at_most e (l + 2 ^ 30 * value ls) (omega arith) in
    let below : tmp1 + 2 ^ 29 * (value us + e * value ls) < radix (suc (length us)) =
      subst (λ (n : ℕ). tmp1 + 2 ^ 29 * (value us + e * value ls) < radix n) (sym p.limbs)
        (omega (arith, loop.0, total, small, fits)) in
    (
      record { limbs = loop.1 ∙ p.limbs; normal = loop.2 below },
      total ∙ ap (λ (t : ℕ). x + 2 ^ 30 * value us + t * (l + 2 ^ 30 * value ls)) (sym parity),
    )
  where
    at_most : (e n : ℕ) → e ≤ 1 → e * n ≤ n
    at_most e n h = grind arith

    even_sum : (x l : ℕ) → l % 2 ≡ 1 → (x + x % 2 * l) % 2 ≡ 0
    even_sum x l h = elim (bit_cases (x % 2) (omega arith)) [
      | inl e ↦ omega (arith, e, ap (λ (t : ℕ). t * l) e)
      | inr e ↦ omega (arith, e, ap (λ (t : ℕ). t * l) e)
    ]

-- The bit at the top of a word.
bit_and-top : (k a : ℕ) → a < 2 ^ suc k → bit_and a (2 ^ k) ≡ a / 2 ^ k * 2 ^ k
bit_and-top zero a h = omega (arith, bit_and-low 1 a)
bit_and-top (suc k) a h =
    let rest = bit_and-top k (a / 2) (omega arith) in
    omega (
      arith,
      bit_and_step a (2 ^ suc k),
      rest,
      ap (λ (n : ℕ). bit_and (a / 2) n) (half k),
      mul-two-pow-suc k (a / 2 / 2 ^ k),
      ap (λ (q : ℕ). q * 2 ^ suc k) (div-two-pow-suc k a),
      pow-suc 2 k,
    )
  where
    half : (k : ℕ) → 2 ^ suc k / 2 ≡ 2 ^ k
    half k = omega (arith, pow-suc 2 k)

lshift_loop-value :
    (prev : ℕ) (us : List ℕ)
    → prev < 2 ^ 30
    → IsNormal us
    → (value (lshift_loop prev us) ≡ (prev / 2 ^ 29 + 2 * value us) % radix (length us))
      × IsNormal (lshift_loop prev us)
      × (length (lshift_loop prev us) ≡ length us)
unfolding lshift_loop
lshift_loop-value prev [] h p = (omega arith, tt, refl)
lshift_loop-value prev (a ∷ us) h (p, ps) =
    let rest = lshift_loop-value a us p ps in
    let top : bit_and prev 0x20000000 ≡ prev / 2 ^ 29 * 2 ^ 29 = bit_and-top 29 prev h in
    let low : bit_and (u32 (a << 1)) 0x3FFFFFFF ≡ a % 2 ^ 29 * 2 ^ 1 =
      omega (arith, bit_and-low 30 (u32 (a << 1))) in
    let bit : bit_and prev 0x20000000 >> 29 ≡ prev / 2 ^ 29 = omega (arith, top) in
    let limb : bit_or (bit_and (u32 (a << 1)) 0x3FFFFFFF) (bit_and prev 0x20000000 >> 29)
        ≡ a % 2 ^ 29 * 2 ^ 1 + prev / 2 ^ 29 =
      ap₂ bit_or low bit ∙ bit_or-fields 1 (a % 2 ^ 29) (prev / 2 ^ 29) (omega arith) in
    let carry : (2 * a + prev / 2 ^ 29) / 2 ^ 30 ≡ a / 2 ^ 29 = omega arith in
    (
      omega (
        arith,
        limb,
        rest.0,
        mod-limb (radix (length us)) (2 * a + prev / 2 ^ 29) (2 * value us) (radix-pos (length us)),
        ap (λ (t : ℕ). (t + 2 * value us) % radix (length us)) carry,
        ap (λ (t : ℕ). t % (2 ^ 30 * radix (length us))) (regroup a (prev / 2 ^ 29) (value us)),
      ),
      (omega (arith, limb), rest.1),
      ap suc rest.2,
    )
  where
    regroup : (a c v : ℕ) → c + 2 * (a + 2 ^ 30 * v) ≡ 2 * a + c + 2 ^ 30 * (2 * v)
    regroup a c v = omega arith

-- `bn_lshift` doubles a normalized number, modulo `2^270`.
pub bn_lshift_lem :
    (a : List ℕ)
    → IsBignum a
    → IsBignum (bn_lshift a) × (value (bn_lshift a) ≡ 2 * value a % 2 ^ 270)
unfolding bn_lshift
bn_lshift_lem [] p = absurd (omega (arith, p.limbs))
bn_lshift_lem (a ∷ us) p =
    let n = length us in
    let loop = lshift_loop-value a us p.normal.0 p.normal.1 in
    let low : bit_and (u32 (a << 1)) 0x3FFFFFFF ≡ 2 * a % 2 ^ 30 =
      omega (arith, bit_and-low 30 (u32 (a << 1)), p.normal.0) in
    let total : value (bn_lshift (a ∷ us)) ≡ (2 * a + 2 ^ 30 * (2 * value us)) % radix (suc n) =
      omega (
        arith,
        low,
        loop.0,
        mod-limb (radix n) (2 * a) (2 * value us) (radix-pos n),
        p.normal.0,
        ap (λ (t : ℕ). (t + 2 * value us) % radix n) (carry a),
      ) in
    (
      record { limbs = ap suc loop.2 ∙ p.limbs; normal = (omega (arith, low), loop.1) },
      total ∙ ap (λ (k : ℕ). (2 * a + 2 ^ 30 * (2 * value us)) % radix k) p.limbs ∙ omega arith,
    )
  where
    carry : (a : ℕ) → 2 * a / 2 ^ 30 ≡ a / 2 ^ 29
    carry a = omega arith
