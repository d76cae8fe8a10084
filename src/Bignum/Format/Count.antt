-- ===== src/Bignum/Format/Count.antt =====
-- `bn_digitcount` counts digits enough for the number.
use aex_cpp_sdk.Base.{
  ℕ, zero, suc, ◌+◌, ◌*◌, ◌^◌, ◌≤◌, ◌<◌, ◌≡◌, ap, arith, List, leb, if◌then◌else◌, Bool-cases, inl,
  inr, pow-add,
}
use aex_cpp_sdk.Bignum.Value.{value, IsBignum}
use aex_cpp_sdk.Bignum.Decimal.{bn_divmod1000, digitcount_loop, bn_digitcount}
use aex_cpp_sdk.Bignum.Decimal.Division.{bn_divmod_lem}

pub mul_le : (l b t : ℕ) → l ≤ b → l * t ≤ b * t
mul_le l b t h = grind arith

-- The digits of a limb before lower digits.
pub joined-bound :
    (i k limb low : ℕ) → limb < 10 ^ k → low < 10 ^ i → limb * 10 ^ i + low < 10 ^ (i + k)
joined-bound i k limb low h below =
    let m = mul_le (suc limb) (10 ^ k) (10 ^ i) h in omega (arith, m, below, pow-add 10 i k)

-- The count after a round is enough for the digits so far.
counted :
    (i limb low digits : ℕ)
    → limb < 1000
    → low < 10 ^ i
    → low < 10 ^ digits
    → limb * 10 ^ i + low
      < 10
        ^ (if leb 100 limb
            then i + 3
            else if leb 10 limb
            then i + 2
            else if leb 1 limb
            then i + 1
            else digits)
counted i limb low digits h below enough = elim (Bool-cases (leb 100 limb)) [
  | inl e ↦ rw e (joined-bound i 3 limb low h below)
  | inr e ↦ elim (Bool-cases (leb 10 limb)) [
    | inl e' ↦ rw e (rw e' (joined-bound i 2 limb low (ground (arith, e)) below))
    | inr e' ↦ elim (Bool-cases (leb 1 limb)) [
      | inl e'' ↦ rw e (rw e' (rw e'' (joined-bound i 1 limb low (ground (arith, e')) below)))
      | inr e'' ↦
          let none_left : limb ≡ 0 = ground (arith, e'') in
          rw e (rw e' (rw e'' (rw none_left (omega (arith, enough)))))
    ]
  ]
]

digitcount_loop-bound :
    (left i : ℕ) (val : List ℕ) (low digits : ℕ)
    → IsBignum val
    → low < 10 ^ i
    → low < 10 ^ digits
    → value val < 10 ^ (3 * left)
    → value val * 10 ^ i + low < 10 ^ digitcount_loop left i val digits
unfolding digitcount_loop
digitcount_loop-bound zero i val low digits p below enough h =
    let none_left : value val ≡ 0 = omega (arith, h) in rw none_left (omega (arith, enough))
digitcount_loop-bound (suc left) i val low digits p below enough h =
    let d = (bn_divmod_lem val p).1 in
    let q = (bn_divmod1000 val).0 in
    let limb = (bn_divmod1000 val).1 in
    let small : limb < 1000 = omega (arith, d.2) in
    let split : value val ≡ value q * 1000 + limb = omega (arith, d.1, d.2) in
    let scaled = ap (λ (v : ℕ). v * 10 ^ i) split in
    let three = pow-add 10 i 3 in
    let three_q = ap (λ (t : ℕ). value q * t) three in
    let less : value val < 1000 * 10 ^ (3 * left) =
      omega (arith, h, ap (λ (k : ℕ). 10 ^ k) (three_rounds left), pow-add 10 (3 * left) 3) in
    let rest =
      digitcount_loop-bound left (i + 3) q (limb * 10 ^ i + low) _ d.0
        (joined-bound i 3 limb low small below) (counted i limb low digits small below enough)
        (omega (arith, d.1, less)) in
    omega (arith, rest, scaled, three_q)
  where
    three_rounds : (n : ℕ) → 3 * suc n ≡ 3 * n + 3
    three_rounds n = omega arith

-- A normalized number below `2^256` is less than ten to the power of its `bn_digitcount`.
pub bn_digitcount-bound :
    (a : List ℕ) → IsBignum a → value a < 2 ^ 256 → value a < 10 ^ bn_digitcount a
unfolding bn_digitcount
bn_digitcount-bound a p h =
    let b = digitcount_loop-bound 26 0 a 0 1 p (omega arith) (omega arith) (omega (arith, h)) in
    omega (arith, b)
