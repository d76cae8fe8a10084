-- ===== src/Address/Validity.antt =====
-- `Address::isValid` leaves the first digit out, as for a version digit, and so refuses most addresses.
use aex_cpp_sdk.Base.{ℕ, ◌/◌, ◌%◌, ◌^◌, ◌<◌, ◌≡◌, ◌≢◌, sym, ap, ◌∙◌, arith}
use aex_cpp_sdk.Base.{
  List, [], ◌∷◌, ◌++◌, append-nil, append_assoc, length, length-append, All, drop, replicate,
}
use aex_cpp_sdk.Base.{true, false, Bool-cases, inl, inr}
use aex_cpp_sdk.Bech32.ConvertBits.{State, convert_bits, convert_end}
use aex_cpp_sdk.Bech32.ConvertBits.Stream.{
  bits, stream, stream-append, bits-add, length-bits, length-stream,
}
use aex_cpp_sdk.Bech32.ConvertBits.Stream.{append-injective, bits-eq-zero}
use aex_cpp_sdk.Bech32.ConvertBits.RoundTrip.{
  digits, digits-All, length-digits, pad_length, pad_length-lt,
}
use aex_cpp_sdk.Bech32.ConvertBits.RoundTrip.{
  stream-digits, gathered, stream-gathered, length-gathered,
}
use aex_cpp_sdk.Bech32.ConvertBits.RoundTrip.{gathered-lt, convert_end_accepted}
use aex_cpp_sdk.Address.{Address, is_valid, encode}
use aex_cpp_sdk.Address.RoundTrip.{IsBinance, codec-encode}

-- Digits that are read from the second on, when all of them stand for `init` and a last byte.
module _ (v : ℕ) (rest : List ℕ) (small : All (λ x. x < 2 ^ 5) rest) (init : List ℕ) (b : ℕ)
    (shorter : length init ≡ 19) (rest_length : length rest ≡ 31)
    (same : stream 5 (v ∷ rest) ≡ stream 8 (init ++ (b ∷ []))) where
  abbrev left_over : State
  left_over = gathered rest small

  three_left : (left_over.bits ≡ 3) × (length left_over.out ≡ 19)
  three_left = omega (arith, length-gathered rest small, gathered-lt rest small)

  split :
      (stream 8 init ++ bits 5 (b / 2 ^ 3)) ++ bits 3 b
      ≡ (bits 5 v ++ stream 8 left_over.out) ++ bits left_over.bits left_over.acc
  split =
      append_assoc (stream 8 init) (bits 5 (b / 2 ^ 3)) (bits 3 b)
      ∙ ap (◌++◌ (stream 8 init)) (sym (bits-add 5 3 b) ∙ sym (append-nil (bits 8 b)))
      ∙ unfold stream in
        sym (stream-append 8 init (b ∷ []))
        ∙ sym same
        ∙ ap (◌++◌ (bits 5 v)) (sym (stream-gathered rest small))
        ∙ sym (append_assoc (bits 5 v) (stream 8 left_over.out) (bits left_over.bits left_over.acc))

  lengths :
      length (stream 8 init ++ bits 5 (b / 2 ^ 3)) ≡ length (bits 5 v ++ stream 8 left_over.out)
  lengths = omega (
    arith,
    length-append (stream 8 init) (bits 5 (b / 2 ^ 3)),
    length-append (bits 5 v) (stream 8 left_over.out),
    length-stream 8 init,
    length-stream 8 left_over.out,
    length-bits 5 (b / 2 ^ 3),
    length-bits 5 v,
    three_left,
  )

  -- The last three bits are what is left over, and the test wants them to be 0.
  accepted_low_bits : (convert_end 5 8 false left_over).0 ≡ true → b % 8 ≡ 0
  accepted_low_bits ok = bits-eq-zero 3 b (
      (append-injective _ _ (bits 3 b) (bits left_over.bits left_over.acc) lengths split).1
      ∙ (convert_end_accepted 5 8 left_over (omega (arith, three_left)) ok).1
      ∙ ap (λ (n : ℕ). replicate n 0) three_left.0)

-- The same on a list of digits.
skip_first :
    (values : List ℕ)
    → All (λ x. x < 2 ^ 5) values
    → (init : List ℕ) (b : ℕ) → length init ≡ 19
    → length values ≡ 32
    → stream 5 values ≡ stream 8 (init ++ (b ∷ []))
    → (convert_bits 5 8 false [] (drop 1 values)).0 ≡ true
    → b % 8 ≡ 0
unfolding convert_bits
skip_first [] small init b n m e ok = absurd (omega arith)
skip_first (v ∷ rest) (hv, hs) init b n m e ok =
    accepted_low_bits v rest hs init b n (omega arith) e ok

-- `Address::isValid` refuses the text that `Address::encode` makes of an address of one of the two
-- networks with a key hash of 20 bytes, if the last byte is not a multiple of 8.
pub is_valid-encode :
    (a : Address) (init : List ℕ) (b : ℕ)
    → IsBinance a
    → a.key_hash ≡ init ++ (b ∷ [])
    → length init ≡ 19
    → b % 8 ≢ 0
    → is_valid (encode a) ≡ false
unfolding is_valid
is_valid-encode a init b v e n odd = rw (codec-encode a v, refused) (ground arith)
  where
    values : List ℕ
    values = digits a.key_hash v.bytes

    twenty : length a.key_hash ≡ 20
    twenty = ap length e ∙ length-append init (b ∷ []) ∙ omega arith

    no_padding : (length values ≡ 32) × (pad_length a.key_hash v.bytes ≡ 0)
    no_padding =
        omega (arith, length-digits a.key_hash v.bytes, pad_length-lt a.key_hash v.bytes, twenty)

    same : stream 5 values ≡ stream 8 (init ++ (b ∷ []))
    same =
        stream-digits a.key_hash v.bytes
        ∙ ap (λ (k : ℕ). stream 8 a.key_hash ++ replicate k 0) no_padding.1
        ∙ append-nil (stream 8 a.key_hash)
        ∙ ap (stream 8) e

    refused : (convert_bits 5 8 false [] (drop 1 values)).0 ≡ false
    refused = elim (Bool-cases (convert_bits 5 8 false [] (drop 1 values)).0) [
      | inl ok ↦
          absurd
            (odd (skip_first values (digits-All a.key_hash v.bytes) init b n no_padding.0 same ok))
      | inr bad ↦ bad
    ]
