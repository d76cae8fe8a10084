-- ===== src/Bignum/Multiply/Step.antt =====
-- One round of the reduction: the ten limbs on top lose a multiple of the prime.
use aex_cpp_sdk.Base.{ℕ, zero, suc, ◌+◌, ◌-◌, ◌*◌, ◌/◌, ◌^◌, ◌≤◌, ◌<◌, ◌≡◌, refl, sym, ap, ◌∙◌}
use aex_cpp_sdk.Base.{
  arith, List, [], ◌∷◌, ◌++◌, length, get_or, take, drop, bit_and, bit_and-low, u64, u32, ◌>>◌,
  ◌<<◌,
}
use aex_cpp_sdk.Base.{get_or-append, drop-append, take-length-append, drop-length-append}
use mathlib.Core.Path.{subst}
use aex_cpp_sdk.Bignum.Value.{value, radix, IsBignum, value-lt}
use aex_cpp_sdk.Bignum.Reduce.{submul}
use aex_cpp_sdk.Bignum.Reduce.Submul.{submul-value}
use aex_cpp_sdk.Bignum.Reduce.FastMod.{IsPrimeSize, top-value, multiple, normal-words}
use aex_cpp_sdk.Bignum.Multiply.{bn_multiply_reduce_step}

-- The estimate of the quotient from the two limbs on top.
abbrev pub estimate : List ℕ → ℕ → ℕ
estimate us h = u32 ((get_or us 8 0 >> 16) + u32 (h << 14))

module _ (us : List ℕ) (h : ℕ) (prime : List ℕ) (p : IsBignum us) (v : IsPrimeSize prime)
    (fits : value us + 2 ^ 270 * h < 2 ^ 31 * value prime) where
  high : h < 2 ^ 17
  high = omega (arith, v.below)

  estimate-bounds :
      (2 ^ 256 * estimate us h ≤ value us + 2 ^ 270 * h)
      × (value us + 2 ^ 270 * h < 2 ^ 256 * estimate us h + 2 ^ 256 + 2 ^ 243)
      × (estimate us h < 2 ^ 31)
  estimate-bounds =
      let top = top-value 8 us p.limbs (normal-words us p.normal) in
      let small = value-lt p in omega (arith, high, top.0, top.1, v.below)

  abbrev pub window : List ℕ
  window = (submul (estimate us h) us prime).0

  abbrev pub carry : ℕ
  carry = (submul (estimate us h) us prime).1

  -- The window is the difference, it is less than twice the prime, and the limb above it is cleared.
  pub window-value :
      IsBignum window
      × (value window + estimate us h * value prime ≡ value us + 2 ^ 270 * h)
      × (value window < 2 * value prime)
      × (carry / 2 ^ 30 + h ≡ 2 ^ 31)
  window-value =
      let b = estimate-bounds in
      let loop =
        submul-value (estimate us h) us prime b.2 (normal-words us p.normal) v.bignum.normal
          (p.limbs ∙ sym v.bignum.limbs) (omega (arith, p.limbs)) in
      let shape : IsBignum window = record { limbs = loop.2 ∙ p.limbs; normal = loop.1 } in
      let exact : value window + 2 ^ 270 * (carry / 2 ^ 30) + estimate us h * value prime
          ≡ 2 ^ 31 * 2 ^ 270 + value us =
        subst
          (λ (n : ℕ).
            value window + radix n * (carry / 2 ^ 30) + estimate us h * value prime
            ≡ 2 ^ 31 * radix n + value us)
          p.limbs loop.0 in
      let parts = multiple (estimate us h) (value prime) v.above v.below b.2 in
      let small = value-lt shape in
      let cleared : carry / 2 ^ 30 + h ≡ 2 ^ 31 =
        omega (arith, exact, parts.0, parts.1, b.0, b.1, b.2, small) in
      (
        shape,
        omega (arith, exact, cleared),
        omega (arith, exact, cleared, parts.0, parts.1, b.0, b.1, b.2, v.above),
        cleared,
      )

  get_or-middle : (ys : List ℕ) → get_or (us ++ ys) 8 0 ≡ get_or us 8 0
  get_or-middle ys = get_or_left us ys 8 (omega (arith, p.limbs))
    where
      get_or_left : (xs ys : List ℕ) (i : ℕ) → i < length xs → get_or (xs ++ ys) i 0 ≡ get_or xs i 0
      get_or_left [] ys i k = absurd (omega arith)
      get_or_left (x ∷ xs) ys zero k = refl
      get_or_left (x ∷ xs) ys (suc i) k = get_or_left xs ys i (omega arith)

  -- The round, with any limbs below and above.
  pub step_lem :
      (lo rest : List ℕ)
      → bn_multiply_reduce_step (lo ++ (us ++ (h ∷ rest))) prime (length lo + 8)
        ≡ lo ++ (window ++ (0 ∷ rest))
  unfolding bn_multiply_reduce_step
  step_lem lo rest =
      let top = us ++ (h ∷ rest) in
      let low : length lo + 8 - 8 ≡ length lo = omega arith in
      let at9 : length lo + 8 + 1 ≡ length lo + (length us + 0) = omega (arith, p.limbs) in
      let at10 : length lo + 8 + 2 ≡ length lo + (length us + 1) = omega (arith, p.limbs) in
      let a : get_or (lo ++ top) (length lo + 8) 0 ≡ get_or us 8 0 =
        get_or-append lo top 8 0 ∙ get_or-middle (h ∷ rest) in
      let b : get_or (lo ++ top) (length lo + 8 + 1) 0 ≡ h =
        ap (λ (i : ℕ). get_or (lo ++ top) i 0) at9
        ∙ get_or-append lo top (length us + 0) 0
        ∙ get_or-append us (h ∷ rest) 0 0 in
      let c : drop (length lo + 8 + 2) (lo ++ top) ≡ rest =
        ap (λ (i : ℕ). drop i (lo ++ top)) at10
        ∙ drop-append lo top (length us + 1)
        ∙ drop-append us (h ∷ rest) 1 in
      let d : take 9 top ≡ us =
        ap (λ (i : ℕ). take i top) (sym p.limbs) ∙ take-length-append us (h ∷ rest) in
      let cleared : bit_and (u64 ((carry >> 30) + (0x1FFFFFFF80000000 + h))) 0x3FFFFFFF ≡ 0 =
        omega (
          arith,
          window-value.3,
          bit_and-low 30 (u64 ((carry >> 30) + (0x1FFFFFFF80000000 + h))),
        ) in
      rw (a, b, c, low, take-length-append lo top, drop-length-append lo top, d, cleared) refl
