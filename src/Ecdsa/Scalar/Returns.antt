-- ===== src/Ecdsa/Scalar/Returns.antt =====
-- The random words that the multiplications use, and what they return.
use aex_cpp_sdk.Base.{ℕ, zero, suc, ◌+◌, ◌%◌, ◌^◌, ◌≤◌, ◌≡◌, List, [], ◌∷◌, length, drop, some}
use aex_cpp_sdk.Bignum.Value.{value}
use aex_cpp_sdk.Ecdsa.Curve.{Point, Curve}
use aex_cpp_sdk.Ecdsa.Jacobian.{Random, Jacobian}

-- The number in the first nine words: 30 bits of each of the first eight, and 16 of the last.
unfoldable pub candidate : List ℕ → ℕ
candidate (a ∷ b ∷ c ∷ d ∷ e ∷ f ∷ g ∷ h ∷ i ∷ rest) = value (
    a % 2 ^ 30
    ∷ b % 2 ^ 30
    ∷ c % 2 ^ 30
    ∷ d % 2 ^ 30
    ∷ e % 2 ^ 30
    ∷ f % 2 ^ 30
    ∷ g % 2 ^ 30
    ∷ h % 2 ^ 30
    ∷ i % 2 ^ 16
    ∷ [])
candidate words = 0

-- The words after so many groups of nine.
unfoldable pub after_groups : ℕ → List ℕ → List ℕ
after_groups zero words = words
after_groups (suc n) words = after_groups n (drop 9 words)

-- A result with the property, from at most so many of the words.
pub record Delivers {A : Type 0} (P : A → Type 0) (used : ℕ) (m : Random A) (words : List ℕ)
    : Type 0 where
  pub result : A
  pub left : List ℕ
  pub returns : m words ≡ some (result, left)
  pub holds : P result
  pub enough : length words ≤ used + length left

-- A result, of which nothing more is said.
abbrev Returns : {A : Type 0} → ℕ → Random A → List ℕ → Type 0
Returns {A} used m words =
    (r : A × List ℕ) × (m words ≡ some r) × (length words ≤ used + length r.1)
