-- ===== src/Ecdsa/Scalar/Odd.antt =====
-- The odd number that the scalar is replaced with.
use aex_cpp_sdk.Base.{
  ℕ, zero, suc, ◌+◌, ◌-◌, ◌*◌, ◌%◌, ◌^◌, ◌≤◌, ◌<◌, ◌≡◌, refl, sym, ap, ◌∙◌, arith,
}
use aex_cpp_sdk.Base.{
  List, [], ◌∷◌, length, get_or, All, IsU32, bit_cases, inl, inr, u32, bit_and, bit_and-low,
  bit_and-zero, ◌>>◌,
}
use aex_cpp_sdk.Bignum.Value.{value, radix, IsNormal, IsBignum}
use aex_cpp_sdk.Bignum.Arith.Sums.{limb-lt}
use aex_cpp_sdk.Bignum.Reduce.FastMod.{top-value}
use aex_cpp_sdk.Ecdsa.Curve.{Curve}
use aex_cpp_sdk.Ecdsa.Scalar.{pred32, odd_loop, make_odd}

-- A mask that keeps `e` times a limb.
abbrev Masks : ℕ → ℕ → Type 0
Masks mask e = (p : ℕ) → p < 2 ^ 30 → bit_and p mask ≡ e * p

odd_loop-value :
    (mask e tmp : ℕ) (ks os : List ℕ) (n : ℕ)
    → e ≤ 1
    → Masks mask e
    → tmp ≤ 2
    → IsNormal ks
    → IsNormal os
    → length ks ≡ suc n
    → length os ≡ suc n
    → value ks < radix n * 2 ^ 16
    → value os < radix n * 2 ^ 16
    → (value (odd_loop mask tmp ks os) + e * value os + 1 ≡ tmp + value ks + radix n * 2 ^ 16)
      × (length (odd_loop mask tmp ks os) ≡ suc n)
      × All IsU32 (odd_loop mask tmp ks os)
unfolding odd_loop
odd_loop-value mask e tmp [] os n one m small p q h g x y = absurd (omega arith)
odd_loop-value mask e tmp (k ∷ ks) [] n one m small p q h g x y = absurd (omega arith)
odd_loop-value mask e tmp (k ∷ []) (o ∷ []) zero one m small (p, ps) (q, qs) h g x y =
    let masked : bit_and o mask ≡ e * o = m o q in
    let few : e * o ≤ o = grind arith in (omega (arith, masked, few), refl, (omega arith, tt))
odd_loop-value mask e tmp (k ∷ []) (o ∷ o' ∷ os) zero one m small p q h g x y = absurd (omega arith)
odd_loop-value mask e tmp (k ∷ []) (o ∷ os) (suc n) one m small p q h g x y = absurd (omega arith)
odd_loop-value mask e tmp (k ∷ k' ∷ ks) (o ∷ os) zero one m small p q h g x y = absurd (omega arith)
odd_loop-value mask e tmp (k ∷ k' ∷ ks) (o ∷ os) (suc n) one m small (p, ps) (q, qs) h g x y =
    let masked : bit_and o mask ≡ e * o = m o q in
    let few : e * o ≤ o = grind arith in
    let t = u32 (tmp + (0x3fffffff + k + 2 ^ 32 - bit_and o mask)) in
    let rest =
      odd_loop-value mask e (t >> 30) (k' ∷ ks) os n one m (omega (arith, masked, few)) ps qs
        (omega arith) (omega arith) (omega arith) (omega arith) in
    let split : e * (o + 2 ^ 30 * value os) ≡ e * o + 2 ^ 30 * (e * value os) = grind arith in
    (
      omega (arith, rest.0, split, masked, few, bit_and-low 30 t),
      ap suc rest.1,
      (omega (arith, limb-lt t), rest.2),
    )

mask_of : (k : ℕ) → Masks (pred32 (bit_and k 1)) (1 - k % 2)
mask_of k p h = elim (bit_cases (k % 2) (omega arith)) [
  | inl e ↦
      let m : pred32 (bit_and k 1) ≡ 2 ^ 32 - 1 = omega (arith, bit_and-low 1 k) in
      let one : 1 - k % 2 ≡ 1 = omega arith in
      let all : bit_and p (2 ^ 32 - 1) ≡ 1 * p = omega (arith, bit_and-low 32 p) in
      ap (bit_and p) m ∙ all ∙ ap (λ (t : ℕ). t * p) (sym one)
  | inr e ↦
      let m : pred32 (bit_and k 1) ≡ 0 = omega (arith, bit_and-low 1 k) in
      let none : 0 ≡ (1 - k % 2) * p =
        let zero_factor : 1 - k % 2 ≡ 0 = omega arith in
        omega (arith, ap (λ (t : ℕ). t * p) zero_factor) in
      ap (bit_and p) m ∙ bit_and-zero p ∙ none
]

-- The number that `point_multiply` and `scalar_multiply` replace the scalar with is odd, is the
-- scalar plus `2^256`, less the order if the scalar is even, and has a highest limb below `2^17`;
-- for a normalized scalar below `2^256` and an odd normalized order below `2^256`.
pub make_odd_lem :
    (curve : Curve) (k : List ℕ)
    → IsBignum k
    → IsBignum curve.order
    → value k < 2 ^ 256
    → value curve.order < 2 ^ 256
    → value curve.order % 2 ≡ 1
    → let a = make_odd curve k in
      (value a + (1 - value k % 2) * value curve.order ≡ value k + 2 ^ 256)
      × (value a % 2 ≡ 1)
      × (get_or a 8 0 < 2 ^ 17)
unfolding make_odd
make_odd_lem curve k p q small below odd =
    let first = get_or k 0 0 in
    let e = 1 - first % 2 in
    let loop =
      odd_loop-value (pred32 (bit_and first 1)) e 1 k curve.order 8 (omega arith) (mask_of first)
        (omega arith) p.normal q.normal p.limbs q.limbs (omega arith) (omega arith) in
    let out = odd_loop (pred32 (bit_and first 1)) 1 k curve.order in
    let same : value k % 2 ≡ first % 2 = parity k in
    let total : value out + (1 - value k % 2) * value curve.order ≡ value k + 2 ^ 256 =
      ap (λ (t : ℕ). value out + (1 - t) * value curve.order) same ∙ omega (arith, loop.0) in
    let top = top-value 8 out loop.1 loop.2 in
    (
      total,
      odd_sum (value out) (value k) (value curve.order) odd total,
      omega (arith, top.0, total),
    )
  where
    parity : (us : List ℕ) → value us % 2 ≡ get_or us 0 0 % 2
    parity [] = refl
    parity (u ∷ us) = omega arith

    odd_sum : (a k n : ℕ) → n % 2 ≡ 1 → a + (1 - k % 2) * n ≡ k + 2 ^ 256 → a % 2 ≡ 1
    odd_sum a k n h total = elim (bit_cases (k % 2) (omega arith)) [
      | inl e ↦ omega (arith, e, total, ap (λ (t : ℕ). (1 - t) * n) e)
      | inr e ↦ omega (arith, e, total, ap (λ (t : ℕ). (1 - t) * n) e)
    ]
