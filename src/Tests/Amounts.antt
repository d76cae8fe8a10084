-- ===== src/Tests/Amounts.antt =====
-- Amounts as texts, and the theorems on `bn_format`.
use aex_cpp_sdk.Base.{
  ℕ, ◌<◌, ◌≡◌, refl, arith, List, [], ◌∷◌, ◌++◌, true, false, none, some, pos, negsuc, length,
}
use aex_cpp_sdk.Bech32.Charset.{codes}
use aex_cpp_sdk.Bignum.Value.{value, IsBignum}
use aex_cpp_sdk.Bignum.Bytes.{bn_read_uint64}
use aex_cpp_sdk.Bignum.Compare.{bn_is_zero, or_limbs}
use aex_cpp_sdk.Bignum.Decimal.{divmod_loop, bn_divmod1000, digitcount_loop, bn_digitcount}
use aex_cpp_sdk.Bignum.Format
use aex_cpp_sdk.Bignum.Format.{
  bn_format, bn_format_uint64, string_or_empty, fill_loop, start_printing, rounds,
}
use aex_cpp_sdk.Bignum.Format.Filling.{Goes, Finished, fill_loop-Finished}
use aex_cpp_sdk.Bignum.Format.Bounds.{bn_format-bound}
use aex_cpp_sdk.Bignum.Format.Finish.{Reads}
use aex_cpp_sdk.Bignum.Format.Reading.{scaled, bn_format_lem}

abbrev amount : List ℕ
amount = 0x75bcd15 ∷ 0 ∷ 0 ∷ 0 ∷ 0 ∷ 0 ∷ 0 ∷ 0 ∷ 0 ∷ []

amount-IsBignum : IsBignum amount
amount-IsBignum = record { limbs = refl; normal = omega arith }

formatted :
    bn_format amount (some (codes "~")) (some (codes " BNB")) 8 (pos 0) false 32
    ≡ some (codes "~1.23456789 BNB")
unfolding bn_format Format.print_digits Format.fill start_printing Format.push_zeros
    Format.zeros_loop Format.digits_loop Format.push_limb Format.push Format.push_digit
    Format.push_point Format.push_checked Format.with_exponent Format.unfinished fill_loop rounds
    string_or_empty bn_is_zero or_limbs divmod_loop bn_divmod1000 digitcount_loop bn_digitcount
formatted = refl

formatted_trailing : bn_format amount none none 12 (pos 2) true 32 ≡ some (codes "0.012345678900")
unfolding bn_format Format.print_digits Format.fill start_printing Format.push_zeros
    Format.zeros_loop Format.digits_loop Format.push_limb Format.push Format.push_digit
    Format.push_point Format.push_checked Format.with_exponent Format.unfinished fill_loop rounds
    string_or_empty bn_is_zero or_limbs divmod_loop bn_divmod1000 digitcount_loop bn_digitcount
formatted_trailing = refl

formatted_cut :
    bn_format amount (some (codes "~")) (some (codes " BNB")) 8 (negsuc 1) false 32
    ≡ some (codes "~0.01234567 BNB")
unfolding bn_format Format.print_digits Format.fill start_printing Format.push_zeros
    Format.zeros_loop Format.digits_loop Format.push_limb Format.push Format.push_digit
    Format.push_point Format.push_checked Format.with_exponent Format.unfinished fill_loop rounds
    string_or_empty bn_is_zero or_limbs divmod_loop bn_divmod1000 digitcount_loop bn_digitcount
formatted_cut = refl

-- With a suffix and every digit behind the exponent, no digit is printed.
formatted_nothing :
    bn_format_uint64 5 none (some (codes " BNB")) 0 (negsuc 0) false 32 ≡ some (codes " BNB")
unfolding bn_format_uint64 bn_read_uint64 bn_format Format.print_digits Format.fill start_printing
    Format.push_zeros Format.zeros_loop Format.digits_loop Format.push_limb Format.push
    Format.push_digit Format.push_point Format.push_checked Format.with_exponent Format.unfinished
    fill_loop rounds string_or_empty bn_is_zero or_limbs divmod_loop bn_divmod1000 digitcount_loop
    bn_digitcount
formatted_nothing = refl

fill_loop-Finished_example :
    Goes
      (Finished (codes " BNB"))
      (fill_loop 7 false (codes " BNB") (start_printing 4 (negsuc 1) 20))
unfolding rounds start_printing
fill_loop-Finished_example =
    fill_loop-Finished 7 false (codes " BNB") (start_printing 4 (negsuc 1) 20) (omega arith)

bn_format-bound_example : length (codes "~1.23456789 BNB") < 32
unfolding string_or_empty
bn_format-bound_example =
    bn_format-bound amount (some (codes "~")) (some (codes " BNB")) 8 (pos 0) false 32
      (codes "~1.23456789 BNB") (omega arith) formatted

bn_format_lem_example :
    (text : List ℕ) × (codes "~0.01234567 BNB"
      ≡ string_or_empty (some (codes "~")) ++ (text ++ string_or_empty (some (codes " BNB"))))
    × Reads 8 (scaled (value amount) (negsuc 1)) text
bn_format_lem_example =
    bn_format_lem amount (some (codes "~")) (some (codes " BNB")) 8 (negsuc 1) false 32
      (codes "~0.01234567 BNB") amount-IsBignum (omega arith) formatted_cut
