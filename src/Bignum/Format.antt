-- ===== src/Bignum/Format.antt =====
-- `bn_format` of src/crypto/bignum.c: a number as a decimal text with a point, a prefix and a suffix.
pub mod Filling
pub mod Bounds
pub mod Count
pub mod Meaning
pub mod Skipped
pub mod Number
pub mod Finish
pub mod Reading
use aex_cpp_sdk.Base.{
  ℕ, zero, suc, ◌+◌, ◌-◌, ◌/◌, ◌%◌, List, [], ◌∷◌, ◌++◌, Bool, true, false, ◌||◌, not, ◌==◌, leb,
  if◌then◌else◌,
}
use aex_cpp_sdk.Base.{
  Option, none, some, ℤ, pos, negsuc, is_negative, sucℤ, deficit, get_or, length,
}
use aex_cpp_sdk.Bignum.Bytes.{bn_read_uint64}
use aex_cpp_sdk.Bignum.Compare.{bn_is_zero}
use aex_cpp_sdk.Bignum.Decimal.{bn_divmod1000, bn_digitcount}

-- The locals: `decimals` and `exponent` as they are counted down and up, the characters from `str` to
-- `end`, and the number of bytes from `start` to `str`.
pub record Printing : Type 0 where
  pub decimals : ℕ
  pub exponent : ℤ
  pub text : List ℕ
  pub room : ℕ

infixl 5 ◌>>=◌
abbrev pub ◌>>=◌ : {A B : Type 0} → Option A → (A → Option B) → Option B
none >>= f = none
some a >>= f = f a

-- `BN_FORMAT_PUSH_CHECKED`. No result is the `return 0`.
unfoldable pub push_checked : ℕ → Printing → Option Printing
push_checked c s =
    if s.room == 0
    then none
    else some (record {
      decimals = s.decimals;
      exponent = s.exponent;
      text = c ∷ s.text;
      room = s.room - 1;
    })

-- The digit, if it is to be printed.
unfoldable pub push_digit : Bool → ℕ → Printing → Option Printing
push_digit trailing n s =
    if leb 1 n || (trailing || (not (length s.text == 0) || leb s.decimals 1))
    then push_checked (0x30 + n) s
    else some s

-- `decimals > 0 && decimals-- == 1` and the point.
unfoldable pub push_point : Printing → Option Printing
push_point s =
    let s' : Printing = record {
      decimals = s.decimals - 1;
      exponent = s.exponent;
      text = s.text;
      room = s.room;
    } in
    if s.decimals == 1 then push_checked 0x2e s' else some s'

unfoldable pub with_exponent : ℤ → Printing → Printing
with_exponent exponent s = record {
  decimals = s.decimals;
  exponent = exponent;
  text = s.text;
  room = s.room;
}

-- `BN_FORMAT_PUSH`.
unfoldable pub push : Bool → ℕ → Printing → Option Printing
push trailing n s =
    if is_negative s.exponent
    then some (with_exponent (sucℤ s.exponent) s)
    else (push_digit trailing n s >>= push_point)

-- The loop `for (; exponent > 0; exponent--)`, with so many rounds to go.
unfoldable pub zeros_loop : Bool → ℕ → Printing → Option Printing
zeros_loop trailing zero s = some s
zeros_loop trailing (suc left) s =
    push trailing 0 s >>= λ s'. zeros_loop trailing left (with_exponent (pos left) s')

-- The loop, where the exponent is positive.
unfoldable pub push_zeros : Bool → Printing → Option Printing
push_zeros trailing s = elim s.exponent [ pos e ↦ zeros_loop trailing e s | negsuc e ↦ some s ]

-- The first digits of a limb, the lowest first.
unfoldable pub push_limb : Bool → ℕ → ℕ → Printing → Option Printing
push_limb trailing zero limb s = some s
push_limb trailing (suc left) limb s =
    push trailing (limb % 10) s >>= push_limb trailing left (limb / 10)

-- The loop over the groups of three digits, and the digits that are left.
unfoldable pub digits_loop : Bool → ℕ → ℕ → List ℕ → Printing → Option Printing
digits_loop trailing last zero val s =
    if last == 0 then some s else push_limb trailing last (bn_divmod1000 val).1 s
digits_loop trailing last (suc left) val s =
    let (quotient, limb) = bn_divmod1000 val in
    push_limb trailing 3 limb s >>= digits_loop trailing last left quotient

-- The condition of the last loop; `str[0]` is the first byte of the text, of the suffix, or the zero.
unfoldable pub unfinished : List ℕ → Printing → Bool
unfinished suffix s =
    let first = get_or s.text 0 (get_or suffix 0 0) in
    leb 1 s.decimals || ((first == 0) || (first == 0x2e))

-- The last loop, of at most so many rounds.
unfoldable pub fill_loop : ℕ → Bool → List ℕ → Printing → Option Printing
fill_loop zero trailing suffix s = some s
fill_loop (suc left) trailing suffix s =
    if unfinished suffix s then push trailing 0 s >>= fill_loop left trailing suffix else some s

-- Rounds that are enough.
unfoldable pub rounds : Printing → ℕ
rounds s = deficit s.exponent + s.decimals + 1

unfoldable pub fill : Bool → List ℕ → Printing → Option Printing
fill trailing suffix s = fill_loop (rounds s) trailing suffix s

-- The locals after the prefix, the suffix and the end are written.
unfoldable pub start_printing : ℕ → ℤ → ℕ → Printing
start_printing decimals exponent room = record {
  decimals = decimals;
  exponent = exponent;
  text = [];
  room = room;
}

-- The locals after the digits of the number.
unfoldable pub print_digits : List ℕ → ℕ → ℤ → Bool → ℕ → Option Printing
print_digits amnt decimals exponent trailing room =
    let exponent' = if bn_is_zero amnt then pos 0 else exponent in
    let digits = bn_digitcount amnt in
    push_zeros trailing (start_printing decimals exponent' room)
    >>= digits_loop trailing (digits % 3) (digits / 3) amnt

-- The bytes of a string that may be null.
unfoldable pub string_or_empty : Option (List ℕ) → List ℕ
string_or_empty none = []
string_or_empty (some text) = text

-- `bn_format` into a buffer that has space for the prefix, the suffix and the zero at the end: the
-- string that is written, whose length is the result, or none for the result 0.
unfoldable pub bn_format :
    List ℕ → Option (List ℕ) → Option (List ℕ) → ℕ → ℤ → Bool → ℕ → Option (List ℕ)
bn_format amnt prefix suffix decimals exponent trailing outlen =
    let prefix' = string_or_empty prefix in
    let suffix' = string_or_empty suffix in
    let room = outlen - length suffix' - 1 - length prefix' in
    print_digits amnt decimals exponent trailing room >>= fill trailing suffix' >>= λ s.
    some (prefix' ++ (s.text ++ suffix'))

-- `bn_format_uint64`.
unfoldable pub bn_format_uint64 :
    ℕ → Option (List ℕ) → Option (List ℕ) → ℕ → ℤ → Bool → ℕ → Option (List ℕ)
bn_format_uint64 amount = bn_format (bn_read_uint64 amount)
