-- ===== src/Serialization/Numbers.antt =====
-- The text that `std::to_string` makes of a 64-bit number reads back as the number.
use aex_cpp_sdk.Base.{ℤ, pos, negsuc}
use aex_cpp_sdk.Base.{
  ℕ, zero, suc, ◌+◌, ◌-◌, ◌*◌, ◌/◌, ◌%◌, ◌^◌, ◌≤◌, ◌<◌, ◌≡◌, refl, ap, ◌∙◌, arith, List, [], ◌∷◌,
  false, ◌==◌, if◌then◌else◌,
}
use aex_cpp_sdk.Serialization.{decimal, decimal_text, to_string}

-- A reader of decimal digits, after a number that is read already.
unfoldable pub read_digits : ℕ → List ℕ → ℕ
read_digits v [] = v
read_digits v (d ∷ ds) = read_digits (10 * v + (d - 0x30)) ds

unfoldable pub read_integer : List ℕ → ℤ
read_integer [] = pos 0
read_integer (d ∷ ds) =
    if d == 0x2d then negsuc (read_digits 0 ds - 1) else pos (read_digits 0 (d ∷ ds))

-- So many rounds are enough for a number with at most so many digits.
read_digits-decimal :
    (left n : ℕ) (text : List ℕ)
    → n < 10 ^ left
    → read_digits 0 (decimal left n text) ≡ read_digits n text
unfolding decimal read_digits
read_digits-decimal zero n text h = ap (λ (v : ℕ). read_digits v text) (omega (arith, h))
read_digits-decimal (suc left) zero text h = refl
read_digits-decimal (suc left) (suc n) text h =
    let nonzero : (suc n == 0) ≡ false = ground arith in
    let bound : suc n < 10 * 10 ^ left = omega (arith, h) in
    rw nonzero (
      read_digits-decimal left (suc n / 10) ((0x30 + suc n % 10) ∷ text) (omega (arith, bound))
      ∙ ap (λ (v : ℕ). read_digits v text) (omega arith))

-- A text of digits does not begin with a sign.
IsDigits : List ℕ → Type 0
IsDigits [] = ⊥
IsDigits (d ∷ ds) = 0x30 ≤ d

decimal-IsDigits : (left n : ℕ) (text : List ℕ) → IsDigits text → IsDigits (decimal left n text)
unfolding decimal IsDigits
decimal-IsDigits zero n text h = h
decimal-IsDigits (suc left) zero text h = h
decimal-IsDigits (suc left) (suc n) text h =
    let nonzero : (suc n == 0) ≡ false = ground arith in
    rw nonzero (decimal-IsDigits left (suc n / 10) ((0x30 + suc n % 10) ∷ text) (omega arith))

decimal_text-IsDigits : (n : ℕ) → IsDigits (decimal_text n)
unfolding decimal_text decimal IsDigits
decimal_text-IsDigits zero = omega arith
decimal_text-IsDigits (suc n) =
    let nonzero : (suc n == 0) ≡ false = ground arith in
    rw nonzero (decimal-IsDigits 19 (suc n / 10) ((0x30 + suc n % 10) ∷ []) (omega arith))

read_digits-decimal_text : (n : ℕ) → n < 10 ^ 20 → read_digits 0 (decimal_text n) ≡ n
unfolding decimal_text read_digits
read_digits-decimal_text zero h = refl
read_digits-decimal_text (suc n) h =
    let nonzero : (suc n == 0) ≡ false = ground arith in
    rw nonzero (read_digits-decimal 20 (suc n) [] h)

read_integer-digits : (text : List ℕ) → IsDigits text → read_integer text ≡ pos (read_digits 0 text)
unfolding read_integer IsDigits
read_integer-digits [] h = absurd h
read_integer-digits (d ∷ ds) h = let sign : (d == 0x2d) ≡ false = ground (arith, h) in rw sign refl

-- The text reads back, for a number of 63 bits and its negative.
pub read_integer-to_string :
    (n : ℕ)
    → n < 2 ^ 63
    → (read_integer (to_string (pos n)) ≡ pos n) × (read_integer (to_string (negsuc n)) ≡ negsuc n)
unfolding to_string read_integer
read_integer-to_string n h = (
  read_integer-digits (decimal_text n) (decimal_text-IsDigits n)
      ∙ ap pos (read_digits-decimal_text n (omega (arith, h))),
  ap negsuc
      (ap (λ (v : ℕ). v - 1) (read_digits-decimal_text (suc n) (omega (arith, h))) ∙ omega arith),
)
