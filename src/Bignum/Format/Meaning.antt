-- ===== src/Bignum/Format/Meaning.antt =====
-- The number that a text with a decimal point stands for, and what a digit that `bn_format` pushes does to it.
use aex_cpp_sdk.Base.{
  ℕ, suc, ◌+◌, ◌-◌, ◌*◌, ◌^◌, ◌≤◌, ◌<◌, ◌≡◌, refl, sym, ap, arith, List, [], ◌∷◌, Bool, true, false,
  ◌||◌, not, ◌==◌, leb, if◌then◌else◌, Bool-cases, inl, inr, pow-add,
}
use aex_cpp_sdk.Base.{some, is_negative, length, All, ◌⊎◌}
use mathlib.Core.Path.{subst}
use aex_cpp_sdk.Bignum.Format.{Printing, push_checked, push_digit, push_point, push}
use aex_cpp_sdk.Bignum.Format.Filling.{Goes, bind-Goes}

-- The digits of a text, those after its point, and the number that the digits make without the point.
unfoldable pub digits_in : List ℕ → ℕ
digits_in [] = 0
digits_in (c ∷ text) = if c == 0x2e then digits_in text else suc (digits_in text)

unfoldable pub places : List ℕ → ℕ
places [] = 0
places (c ∷ text) = if c == 0x2e then digits_in text else places text

unfoldable pub mantissa : List ℕ → ℕ
mantissa [] = 0
mantissa (c ∷ text) =
    if c == 0x2e then mantissa text else (c - 0x30) * 10 ^ digits_in text + mantissa text

-- A digit or a point.
abbrev pub IsDecimalChar : ℕ → Type 0
IsDecimalChar c = (c ≡ 0x2e) ⊎ (0x30 ≤ c) × (c < 0x3a)

-- After `count` pushed digits, which make the number `total`, the last `zeros` of them are not in the
-- text. The point comes after `first` digits.
pub record Denotes (first count total : ℕ) (s : Printing) : Type 0 where
  pub zeros : ℕ
  pub chars : All IsDecimalChar s.text
  pub number : total ≡ mantissa s.text * 10 ^ zeros
  pub digits : digits_in s.text + zeros ≡ count
  pub before : 0 < s.decimals → first ≡ s.decimals + count
  pub after : s.decimals ≡ 0 → places s.text + zeros ≡ first
  pub nonnegative : is_negative s.exponent ≡ false

push_checked-cases :
    (P : Printing → Type 0) (c : ℕ) (s : Printing)
    → P (record {
      decimals = s.decimals;
      exponent = s.exponent;
      text = c ∷ s.text;
      room = s.room - 1;
    })
    → Goes P (push_checked c s)
unfolding push_checked
push_checked-cases P c s h = elim (Bool-cases (s.room == 0)) [ inl e ↦ rw e tt | inr e ↦ rw e h ]

-- The digit is in the text, or it is one more zero at the end.
record Placed (first count total : ℕ) (s : Printing) : Type 0 where
  zeros : ℕ
  chars : All IsDecimalChar s.text
  number : total ≡ mantissa s.text * 10 ^ zeros
  digits : digits_in s.text + zeros ≡ suc count
  before : 0 < s.decimals → first ≡ s.decimals + count
  last : s.decimals ≡ 1 → digits_in s.text + zeros ≡ first
  after : s.decimals ≡ 0 → places s.text + zeros ≡ first
  nonnegative : is_negative s.exponent ≡ false

-- A digit before a text.
module _ (n : ℕ) (small : n < 10) (text : List ℕ) where
  digit_char : ((0x30 + n) == 0x2e) ≡ false
  digit_char = ground (arith, small)

  mantissa-digit : mantissa ((0x30 + n) ∷ text) ≡ n * 10 ^ digits_in text + mantissa text
  unfolding mantissa
  mantissa-digit =
      rw digit_char (ap (λ (d : ℕ). d * 10 ^ digits_in text + mantissa text) (omega arith))

  digits_in-digit : digits_in ((0x30 + n) ∷ text) ≡ suc (digits_in text)
  unfolding digits_in
  digits_in-digit = rw digit_char refl

  places-digit : places ((0x30 + n) ∷ text) ≡ places text
  unfolding places
  places-digit = rw digit_char refl

module _ (first count total : ℕ) (n : ℕ) (small : n < 10) where
  printed :
      (s : Printing)
      → Denotes first count total s
      → Placed first count (n * 10 ^ count + total) (record {
        decimals = s.decimals;
        exponent = s.exponent;
        text = (0x30 + n) ∷ s.text;
        room = s.room - 1;
      })
  printed s h =
      let m = mantissa-digit n small s.text in
      let d = digits_in-digit n small s.text in
      let scaled = ap (λ (x : ℕ). x * 10 ^ h.zeros) m in
      let power = ap (λ (k : ℕ). n * 10 ^ k) (sym h.digits) in
      let split = ap (λ (x : ℕ). n * x) (pow-add 10 (digits_in s.text) h.zeros) in
      record {
        zeros = h.zeros;
        chars = (inr (omega arith, omega (arith, small)), h.chars);
        number = omega (arith, scaled, power, split, h.number);
        digits = omega (arith, d, h.digits);
        before = h.before;
        last = λ one. omega (arith, d, h.digits, h.before (omega (arith, one)), one);
        after = λ none_left. omega (arith, places-digit n small s.text, h.after none_left);
        nonnegative = h.nonnegative;
      }

-- A zero at the end of the decimals is left out.
skipped :
    (first count total : ℕ) (s : Printing)
    → Denotes first count total s
    → s.text ≡ []
    → 1 < s.decimals
    → Placed first count (0 * 10 ^ count + total) s
unfolding mantissa
skipped first count total s h e more =
    let empty : mantissa s.text ≡ 0 = ap mantissa e in
    let number = ap (λ (x : ℕ). x * 10 ^ h.zeros) empty in
    let number' = ap (λ (x : ℕ). x * 10 ^ suc h.zeros) empty in
    record {
      zeros = suc h.zeros;
      chars = h.chars;
      number = omega (arith, h.number, number, number');
      digits = omega (arith, h.digits);
      before = h.before;
      last = λ one. absurd (omega (arith, one, more));
      after = λ none_left. absurd (omega (arith, none_left, more));
      nonnegative = h.nonnegative;
    }

-- The tests that leave a digit out.
left_out :
    (a b c d : Bool) → (a || (b || (c || d))) ≡ false → (a ≡ false) × (c ≡ false) × (d ≡ false)
left_out true b c d e = absurd (cc)
left_out false true c d e = absurd (cc)
left_out false false true d e = absurd (cc)
left_out false false false d e = (refl, refl, e)

empty_text : (text : List ℕ) → not (length text == 0) ≡ false → text ≡ []
empty_text [] e = refl
empty_text (c ∷ text) e =
    let some_left : (suc (length text) == 0) ≡ false = ground arith in
    let same : not (suc (length text) == 0) ≡ true = rw some_left refl in absurd (cc)

push_digit-Placed :
    (first count total : ℕ) (trailing : Bool) (n : ℕ) (s : Printing)
    → n < 10
    → Denotes first count total s
    → Goes (Placed first count (n * 10 ^ count + total)) (push_digit trailing n s)
unfolding push_digit
push_digit-Placed first count total trailing n s small h =
    choose (leb 1 n || (trailing || (not (length s.text == 0) || leb s.decimals 1))) refl
  where
    choose :
        (b : Bool)
        → (leb 1 n || (trailing || (not (length s.text == 0) || leb s.decimals 1))) ≡ b
        → Goes
            (Placed first count (n * 10 ^ count + total))
            (if b then push_checked (0x30 + n) s else some s)
    choose true e =
        push_checked-cases (Placed first count (n * 10 ^ count + total)) (0x30 + n) s
          (printed first count total n small s h)
    choose false e =
        let (a, c, d) =
          left_out (leb 1 n) trailing (not (length s.text == 0)) (leb s.decimals 1) e in
        let zero_digit : 0 ≡ n = ground (arith, a) in
        subst (λ (k : ℕ). Placed first count (k * 10 ^ count + total) s) zero_digit
          (skipped first count total s h (empty_text s.text c) (ground (arith, d)))

push_point-Denotes :
    (first count total : ℕ) (s : Printing)
    → Placed first count total s
    → Goes (Denotes first (suc count) total) (push_point s)
unfolding push_point mantissa digits_in places
push_point-Denotes first count total s h = elim (Bool-cases (s.decimals == 1)) [
  | inl e ↦
      let one : s.decimals ≡ 1 = ground (arith, e) in
      rw e (
        push_checked-cases (Denotes first (suc count) total) 0x2e
          (record {
            decimals = s.decimals - 1;
            exponent = s.exponent;
            text = s.text;
            room = s.room;
          })
          (record {
            zeros = h.zeros;
            chars = (inl refl, h.chars);
            number = h.number;
            digits = h.digits;
            before = λ some_left. absurd (omega (arith, one, some_left));
            after = λ none_left. h.last one;
            nonnegative = h.nonnegative;
          }))
  | inr e ↦
      let other : (s.decimals ≡ 1) → ⊥ = λ one. ground (arith, e, one) in
      rw e (record {
        zeros = h.zeros;
        chars = h.chars;
        number = h.number;
        digits = h.digits;
        before =
            λ some_left. let b = h.before (omega (arith, some_left)) in omega (arith, some_left, b);
        after = λ none_left. h.after (ground (arith, none_left, e));
        nonnegative = h.nonnegative;
      })
]

-- A digit that is pushed stands before the digits so far.
pub push-Denotes :
    (first count total : ℕ) (trailing : Bool) (n : ℕ) (s : Printing)
    → n < 10
    → Denotes first count total s
    → Goes (Denotes first (suc count) (n * 10 ^ count + total)) (push trailing n s)
unfolding push
push-Denotes first count total trailing n s small h = rw h.nonnegative (
    bind-Goes (Placed first count (n * 10 ^ count + total))
      (Denotes first (suc count) (n * 10 ^ count + total)) (push_digit trailing n s) push_point
      (push_digit-Placed first count total trailing n s small h)
      (push_point-Denotes first count (n * 10 ^ count + total)))
