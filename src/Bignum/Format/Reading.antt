-- ===== src/Bignum/Format/Reading.antt =====
-- The text that `bn_format` writes stands for the amount.
use aex_cpp_sdk.Base.{
  ℕ, ◌+◌, ◌-◌, ◌*◌, ◌%◌, ◌/◌, ◌^◌, ◌<◌, ◌≡◌, refl, sym, ap, ◌∙◌, arith, List, ◌++◌, Bool,
  Bool-cases, inl, inr, ==_iff,
}
use aex_cpp_sdk.Base.{Option, none, some, ℤ, pos, negsuc, deficit, length}
use mathlib.Core.Path.{subst}
use aex_cpp_sdk.Bignum.Value.{value, IsBignum}
use aex_cpp_sdk.Bignum.Compare.{bn_is_zero}
use aex_cpp_sdk.Bignum.Compare.Tests.{bn_is_zero_lem}
use aex_cpp_sdk.Bignum.Decimal.{bn_digitcount}
use aex_cpp_sdk.Bignum.Format.{
  Printing, ◌>>=◌, push_zeros, digits_loop, fill, start_printing, print_digits, string_or_empty,
  bn_format,
}
use aex_cpp_sdk.Bignum.Format.Filling.{Goes, bind-Goes, map-Goes}
use aex_cpp_sdk.Bignum.Format.Count.{bn_digitcount-bound}
use aex_cpp_sdk.Bignum.Format.Meaning.{mantissa, places, digits_in, Denotes}
use aex_cpp_sdk.Bignum.Format.Number.{zeros_loop-Denotes, digits_loop-Offered}
use aex_cpp_sdk.Bignum.Format.Skipped.{Offered}
use native.Mathlib.Nat.{zero-div}
use aex_cpp_sdk.Bignum.Format.Finish.{Prints, Reads, pow_pos, fill-Reads}

-- How far an exponent is above zero.
abbrev pub excess : ℤ → ℕ
excess (pos n) = n
excess (negsuc n) = 0

-- The zeros of a positive exponent come first.
push_zeros-Offered :
    (first : ℕ) (exponent : ℤ) (trailing : Bool) (room : ℕ)
    → Goes
        (Offered first (deficit exponent) (excess exponent) 0)
        (push_zeros trailing (start_printing first exponent room))
unfolding push_zeros start_printing mantissa places digits_in
push_zeros-Offered first (negsuc n) trailing room = record {
  bound = omega arith;
  part = inl (record { fewer = omega arith; missing = omega arith; text = refl; decimals = refl });
}
push_zeros-Offered first (pos e) trailing room =
    map-Goes (Denotes first (0 + e) 0) (Offered first 0 e 0) _
      (zeros_loop-Denotes first trailing e 0 (start_printing first (pos e) room) (record {
        zeros = 0;
        chars = tt;
        number = refl;
        digits = refl;
        before = λ d. omega arith;
        after = λ d. omega (arith, d);
        nonnegative = refl;
      }))
      (λ s h. record {
        bound = pow_pos e;
        part = inr (record {
          more = 0 + e;
          quotient = 0;
          low = 0;
          split = omega arith;
          small = omega arith;
          later = omega arith;
          denotes = h;
        });
      })

-- The digits of the amount come after them.
printed-Prints :
    (amnt : List ℕ) (first : ℕ) (exponent : ℤ) (trailing : Bool) (room : ℕ)
    → IsBignum amnt
    → value amnt < 2 ^ 256
    → Goes (Prints first (deficit exponent) (value amnt * 10 ^ excess exponent)) (
        push_zeros trailing (start_printing first exponent room)
        >>= digits_loop trailing (bn_digitcount amnt % 3) (bn_digitcount amnt / 3) amnt)
printed-Prints amnt first exponent trailing room p small =
    let digits = bn_digitcount amnt in
    let skip = deficit exponent in
    let start = excess exponent in
    let total = value amnt * 10 ^ start in
    let groups : digits ≡ 3 * (digits / 3) + digits % 3 = omega arith in
    bind-Goes (Offered first skip start 0) (Prints first skip total) _ _
      (push_zeros-Offered first exponent trailing room)
      (λ s h.
        map-Goes (Offered first skip (start + digits) total) (Prints first skip total) _
          (digits_loop-Offered first skip trailing (digits % 3) (digits / 3) start 0
            (start + digits) total amnt s p (omega arith)
            (subst (λ (k : ℕ). value amnt < 10 ^ k) groups (bn_digitcount-bound amnt p small))
            (omega (arith, groups)) (omega arith) h)
          (λ t k. record { count = start + digits; offered = k }))

-- The amount times ten to the exponent, rounded down.
unfoldable pub scaled : ℕ → ℤ → ℕ
scaled amount exponent = amount * 10 ^ excess exponent / 10 ^ deficit exponent

formatted-Reads :
    (amnt : List ℕ) (first : ℕ) (exponent : ℤ) (trailing : Bool) (room : ℕ) (suffix : List ℕ)
    → IsBignum amnt
    → value amnt < 2 ^ 256
    → Goes
        (λ s. Reads first (scaled (value amnt) exponent) s.text)
        (push_zeros trailing (start_printing first exponent room)
          >>= digits_loop trailing (bn_digitcount amnt % 3) (bn_digitcount amnt / 3) amnt
          >>= fill trailing suffix)
unfolding scaled
formatted-Reads amnt first exponent trailing room suffix p small =
    bind-Goes (Prints first (deficit exponent) (value amnt * 10 ^ excess exponent))
      (λ s. Reads first (scaled (value amnt) exponent) s.text) _ (fill trailing suffix)
      (printed-Prints amnt first exponent trailing room p small)
      (fill-Reads first (deficit exponent) (value amnt * 10 ^ excess exponent) trailing suffix)

scaled-zero : (exponent : ℤ) → scaled 0 exponent ≡ 0
unfolding scaled
scaled-zero exponent =
    ap (λ (k : ℕ). k / 10 ^ deficit exponent) (omega arith) ∙ zero-div (10 ^ deficit exponent)

print_digits-Reads :
    (amnt : List ℕ) (first : ℕ) (exponent : ℤ) (trailing : Bool) (room : ℕ) (suffix : List ℕ)
    → IsBignum amnt
    → value amnt < 2 ^ 256
    → Goes
        (λ s. Reads first (scaled (value amnt) exponent) s.text)
        (print_digits amnt first exponent trailing room >>= fill trailing suffix)
unfolding print_digits
print_digits-Reads amnt first exponent trailing room suffix p small =
    elim (Bool-cases (bn_is_zero amnt)) [
      | inr n ↦ rw n (formatted-Reads amnt first exponent trailing room suffix p small)
      | inl z ↦
          let zero_amount : value amnt ≡ 0 =
            (==_iff (value amnt) 0).0 (sym (bn_is_zero_lem amnt) ∙ z) in
          let same : scaled (value amnt) (pos 0) ≡ scaled (value amnt) exponent =
            ap (λ (k : ℕ). scaled k (pos 0)) zero_amount
            ∙ scaled-zero (pos 0)
            ∙ sym (scaled-zero exponent)
            ∙ ap (λ (k : ℕ). scaled k exponent) (sym zero_amount) in
          rw z (
            map-Goes (λ s. Reads first (scaled (value amnt) (pos 0)) s.text)
              (λ s. Reads first (scaled (value amnt) exponent) s.text) _
              (formatted-Reads amnt first (pos 0) trailing room suffix p small)
              (λ s h. subst (λ (k : ℕ). Reads first k s.text) same h))
    ]

framed-Reads :
    (prefix suffix out : List ℕ) (decimals total : ℕ) (o : Option Printing)
    → Goes (λ s. Reads decimals total s.text) o
    → (o >>= λ s. some (prefix ++ (s.text ++ suffix))) ≡ some out
    → (text : List ℕ) × (out ≡ prefix ++ (text ++ suffix)) × Reads decimals total text
framed-Reads prefix suffix out decimals total none h e = absurd (cc)
framed-Reads prefix suffix out decimals total (some s) h e = (s.text, cc, h)

-- A text that `bn_format` writes is the prefix, digits with a point, and the suffix, and the
-- digits with the point stand for the amount times ten to the exponent, rounded down, with so many
-- decimals: this number times `10^p`, for the `p` digits after the point, is the number of the
-- digits without the point times `10^decimals`; for every exponent, with trailing zeros or
-- without, and a normalized amount below `2^256`.
pub bn_format_lem :
    (amnt : List ℕ) (prefix suffix : Option (List ℕ)) (decimals : ℕ) (exponent : ℤ)
    (trailing : Bool) (outlen : ℕ) (out : List ℕ)
    → IsBignum amnt
    → value amnt < 2 ^ 256
    → bn_format amnt prefix suffix decimals exponent trailing outlen ≡ some out
    → (text : List ℕ) × (out ≡ string_or_empty prefix ++ (text ++ string_or_empty suffix))
      × Reads decimals (scaled (value amnt) exponent) text
unfolding bn_format
bn_format_lem amnt prefix suffix decimals exponent trailing outlen out p small h =
    let before = string_or_empty prefix in
    let after = string_or_empty suffix in
    let room = outlen - length after - 1 - length before in
    framed-Reads before after out decimals (scaled (value amnt) exponent)
      (print_digits amnt decimals exponent trailing room >>= fill trailing after)
      (print_digits-Reads amnt decimals exponent trailing room after p small) h
