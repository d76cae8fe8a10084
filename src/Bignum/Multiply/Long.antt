-- ===== src/Bignum/Multiply/Long.antt =====
-- `bn_multiply_long`: the sums of products along the columns are the product of the values.
use aex_cpp_sdk.Base.{ℕ, zero, suc, ◌+◌, ◌-◌, ◌*◌, ◌^◌, ◌≤◌, ◌<◌, ◌≡◌, refl, ap, ap₂, ◌∙◌}
use aex_cpp_sdk.Base.{
  arith, List, [], ◌∷◌, length, get_or, All-get_or, bit_and-low, u64, ◌>>◌, ltb, if◌then◌else◌,
}
use aex_cpp_sdk.Base.{Bool-cases, inl, inr}
use aex_cpp_sdk.Bignum.Value.{value, radix, value-lt, IsNormal, IsBignum}
use aex_cpp_sdk.Bignum.Arith.Sums.{limb-lt}
use aex_cpp_sdk.Bignum.Multiply.{column, long_loop, bn_multiply_long}

-- The products of column `i`, from row `j` on.
sum : List ℕ → List ℕ → ℕ → ℕ → ℕ → ℕ
sum k x i j zero = 0
sum k x i j (suc n) = get_or k j 0 * get_or x (i - j) 0 + sum k x i (suc j) n

-- Column `i` of the product of any two lists of limbs, and the number that `n` columns stand for.
conv : List ℕ → List ℕ → ℕ → ℕ
conv [] x i = 0
conv (a ∷ k) x zero = a * get_or x 0 0
conv (a ∷ k) x (suc i) = a * get_or x (suc i) 0 + conv k x i

columns : List ℕ → List ℕ → ℕ → ℕ → ℕ
columns k x zero i = 0
columns k x (suc n) i = conv k x i + 2 ^ 30 * columns k x n (suc i)

limbs_from : List ℕ → ℕ → ℕ → ℕ
limbs_from x zero i = 0
limbs_from x (suc n) i = get_or x i 0 + 2 ^ 30 * limbs_from x n (suc i)

limbs_from-cons : (a : ℕ) (x : List ℕ) (n i : ℕ) → limbs_from (a ∷ x) n (suc i) ≡ limbs_from x n i
unfolding limbs_from
limbs_from-cons a x zero i = refl
limbs_from-cons a x (suc n) i = omega (arith, limbs_from-cons a x n (suc i))

limbs_from-nil : (n i : ℕ) → limbs_from [] n i ≡ 0
unfolding limbs_from
limbs_from-nil zero i = refl
limbs_from-nil (suc n) i = omega (arith, limbs_from-nil n (suc i))

limbs_from-value : (x : List ℕ) (n : ℕ) → length x ≤ n → limbs_from x n 0 ≡ value x
unfolding limbs_from
limbs_from-value [] n h = limbs_from-nil n 0
limbs_from-value (a ∷ x) zero h = absurd (omega arith)
limbs_from-value (a ∷ x) (suc n) h =
    omega (arith, limbs_from-cons a x n 0, limbs_from-value x n (omega arith))

columns-nil : (x : List ℕ) (n i : ℕ) → columns [] x n i ≡ 0
unfolding columns conv
columns-nil x zero i = refl
columns-nil x (suc n) i = omega (arith, columns-nil x n (suc i))

-- A limb in front adds its multiple of the other number and moves the columns up.
columns-cons :
    (a : ℕ) (k x : List ℕ) (n i : ℕ)
    → columns (a ∷ k) x n (suc i) ≡ a * limbs_from x n (suc i) + columns k x n i
unfolding columns conv limbs_from
columns-cons a k x zero i = omega arith
columns-cons a k x (suc n) i = grind (arith, columns-cons a k x n (suc i))

columns-first :
    (a : ℕ) (k x : List ℕ) (n : ℕ)
    → columns (a ∷ k) x (suc n) 0 ≡ a * limbs_from x (suc n) 0 + 2 ^ 30 * columns k x n 0
unfolding columns conv limbs_from
columns-first a k x n = grind (arith, columns-cons a k x n 0)

columns-value :
    (k x : List ℕ) (n : ℕ) → length k + length x ≤ suc n → columns k x n 0 ≡ value k * value x
unfolding columns
columns-value [] x n h = columns-nil x n 0 ∙ omega arith
columns-value (a ∷ k) [] zero h = omega arith
columns-value (a ∷ k) (b ∷ x) zero h = absurd (omega arith)
columns-value (a ∷ k) x (suc n) h =
    columns-first a k x n
    ∙ ap₂ (λ (s t : ℕ). a * s + 2 ^ 30 * t) (limbs_from-value x (suc n) (omega arith))
        (columns-value k x n (omega arith))
    ∙ grind arith

-- Rows that meet no limb of the other number add nothing.
sum-split : (k x : List ℕ) (i j m n : ℕ) → sum k x i j (m + n) ≡ sum k x i j m + sum k x i (m + j) n
unfolding sum
sum-split k x i j zero n =
    let count : 0 + n ≡ n = omega arith in
    let row : j ≡ 0 + j = omega arith in ap₂ (λ (r s : ℕ). sum k x i s r) count row ∙ omega arith
sum-split k x i j (suc m) n =
    let row : m + suc j ≡ suc m + j = omega arith in
    let count : suc m + n ≡ suc (m + n) = omega arith in
    ap (sum k x i j) count
    ∙ omega (arith, sum-split k x i (suc j) m n, ap (λ (s : ℕ). sum k x i s n) row)

get_or_past : (x : List ℕ) (i : ℕ) → length x ≤ i → get_or x i 0 ≡ 0
get_or_past [] i h = refl
get_or_past (a ∷ x) zero h = absurd (omega arith)
get_or_past (a ∷ x) (suc i) h = get_or_past x i (omega arith)

sum-left : (k x : List ℕ) (i j n : ℕ) → j + n + length x ≤ suc i → sum k x i j n ≡ 0
unfolding sum
sum-left k x i j zero h = refl
sum-left k x i j (suc n) h = omega (
  arith,
  ap (λ (r : ℕ). get_or k j 0 * r) (get_or_past x (i - j) (omega arith)),
  sum-left k x i (suc j) n (omega arith),
)

sum-right : (k x : List ℕ) (i j n : ℕ) → length k ≤ j → sum k x i j n ≡ 0
unfolding sum
sum-right k x i j zero h = refl
sum-right k x i j (suc n) h = omega (
  arith,
  ap (λ (r : ℕ). r * get_or x (i - j) 0) (get_or_past k j h),
  sum-right k x i (suc j) n (omega arith),
)

sum-cons : (a : ℕ) (k x : List ℕ) (i j n : ℕ) → sum (a ∷ k) x (suc i) (suc j) n ≡ sum k x i j n
unfolding sum
sum-cons a k x i j zero = refl
sum-cons a k x i j (suc n) =
    let row : suc i - suc j ≡ i - j = omega arith in
    omega (arith, ap (λ (r : ℕ). get_or k j 0 * get_or x r 0) row, sum-cons a k x i (suc j) n)

-- The rows up to `i` are the whole of column `i`.
sum-conv : (k x : List ℕ) (i : ℕ) → sum k x i 0 (suc i) ≡ conv k x i
unfolding sum conv
sum-conv [] x i = sum-right [] x i 0 (suc i) (omega arith)
sum-conv (a ∷ k) x zero = omega arith
sum-conv (a ∷ k) x (suc i) =
    let row : suc i - 0 ≡ suc i = omega arith in
    omega (arith, ap (λ (r : ℕ). a * get_or x r 0) row, sum-cons a k x i 0 (suc i), sum-conv k x i)

module _ (k x : List ℕ) (p : IsBignum k) (q : IsBignum x) where
  limb-bound : (us : List ℕ) (i : ℕ) → IsBignum us → get_or us i 0 < 2 ^ 30
  limb-bound us i r = All-get_or (λ (u : ℕ). u < 2 ^ 30) us i 0 (omega arith) r.normal

  product-bound : (i j : ℕ) → get_or k j 0 * get_or x (i - j) 0 ≤ 2 ^ 60
  product-bound i j =
      let a : get_or k j 0 ≤ 2 ^ 30 = omega (arith, limb-bound k j p) in
      let b : get_or x (i - j) 0 ≤ 2 ^ 30 = omega (arith, limb-bound x (i - j) q) in grind arith

  sum-le : (i j n : ℕ) → sum k x i j n ≤ n * 2 ^ 60
  unfolding sum
  sum-le i j zero = omega arith
  sum-le i j (suc n) = omega (arith, sum-le i (suc j) n, product-bound i j)

  -- No addition along a column overflows.
  column-sum :
      (i j n temp : ℕ) → temp + n * 2 ^ 60 < 2 ^ 64 → column k x i j n temp ≡ temp + sum k x i j n
  unfolding column sum
  column-sum i j zero temp h = omega arith
  column-sum i j (suc n) temp h =
      let row : j + 1 ≡ suc j = omega arith in
      let b = product-bound i j in
      let exact : u64 (temp + get_or k j 0 * get_or x (i - j) 0)
          ≡ temp + get_or k j 0 * get_or x (i - j) 0 =
        omega arith in
      ap₂ (λ (r t : ℕ). column k x i r n t) row exact
      ∙ column-sum i (suc j) n (temp + get_or k j 0 * get_or x (i - j) 0) (omega arith)
      ∙ omega arith

  -- The rows that the loop takes for a column: all, or those that meet a limb.
  lower : (i : ℕ) → i < 9 → sum k x i 0 (i + 1) ≡ conv k x i
  lower i h = let count : i + 1 ≡ suc i = omega arith in ap (sum k x i 0) count ∙ sum-conv k x i

  upper : (i : ℕ) → 9 ≤ i → i < 17 → sum k x i (i - 8) (17 - i) ≡ conv k x i
  upper i g h =
      let low : i - 8 + 0 ≡ i - 8 = omega arith in
      let total : (i - 8) + ((17 - i) + (i - 8)) ≡ suc i = omega arith in
      omega (
        arith,
        sum-conv k x i,
        ap (sum k x i 0) total,
        sum-split k x i 0 (i - 8) ((17 - i) + (i - 8)),
        sum-left k x i 0 (i - 8) (omega (arith, q.limbs)),
        ap (λ (r : ℕ). sum k x i r ((17 - i) + (i - 8))) low,
        sum-split k x i (i - 8) (17 - i) (i - 8),
        sum-right k x i ((17 - i) + (i - 8)) (i - 8) (omega (arith, p.limbs)),
      )

  -- What the loop has in `temp` after a column.
  abbrev in_column : ℕ → ℕ → ℕ
  in_column i temp =
      if ltb i 9 then column k x i 0 (i + 1) temp else column k x i (i - 8) (17 - i) temp

  in_column-conv :
      (i temp : ℕ)
      → temp < 2 ^ 35
      → i < 17
      → (in_column i temp ≡ temp + conv k x i) × (in_column i temp < 2 ^ 35 + 9 * 2 ^ 60)
  in_column-conv i temp small h = elim (Bool-cases (ltb i 9)) [
    | inl below ↦
        let l : i < 9 = ground arith in
        let e = column-sum i 0 (i + 1) temp (omega arith) in
        let b = sum-le i 0 (i + 1) in rw below (omega (arith, lower i l), omega arith)
    | inr above ↦
        let g : 9 ≤ i = ground arith in
        let e = column-sum i (i - 8) (17 - i) temp (omega arith) in
        let b = sum-le i (i - 8) (17 - i) in rw above (omega (arith, upper i g h), omega arith)
  ]

  long_loop-value :
      (left i temp : ℕ)
      → i + left ≡ 17
      → temp < 2 ^ 35
      → temp + columns k x left i < radix (suc left)
      → (value (long_loop k x left i temp) ≡ temp + columns k x left i)
        × IsNormal (long_loop k x left i temp)
        × (length (long_loop k x left i temp) ≡ suc left)
  unfolding long_loop columns
  long_loop-value zero i temp e small h = (omega arith, (omega arith, tt), refl)
  long_loop-value (suc left) i temp e small h =
      let t = in_column i temp in
      let c = in_column-conv i temp small (omega arith) in
      let next : i + 1 ≡ suc i = omega arith in
      let same = ap (columns k x left) next in
      let rest = long_loop-value left (i + 1) (t >> 30) (omega arith) (omega arith) (omega arith) in
      (omega (arith, rest.0, bit_and-low 30 t), (limb-lt t, rest.1), ap suc rest.2)

product-lt : (a b : ℕ) → a < 2 ^ 270 → b < 2 ^ 270 → a * b < 2 ^ 540
product-lt a b h k =
    let a' : a ≤ 2 ^ 270 - 1 = omega arith in
    let b' : b ≤ 2 ^ 270 - 1 = omega arith in
    let c : a * b ≤ (2 ^ 270 - 1) * (2 ^ 270 - 1) = grind arith in omega arith

-- `bn_multiply_long` gives the product in 18 normalized limbs.
pub bn_multiply_long-value :
    (k x : List ℕ)
    → IsBignum k
    → IsBignum x
    → (value (bn_multiply_long k x) ≡ value k * value x)
      × IsNormal (bn_multiply_long k x)
      × (length (bn_multiply_long k x) ≡ 18)
unfolding bn_multiply_long
bn_multiply_long-value k x p q =
    let total = columns-value k x 17 (omega (arith, p.limbs, q.limbs)) in
    let fits = product-lt (value k) (value x) (value-lt p) (value-lt q) in
    let loop = long_loop-value k x p q 17 0 0 refl (omega arith) (omega (arith, total, fits)) in
    (loop.0 ∙ omega (arith, total), loop.1, loop.2)
