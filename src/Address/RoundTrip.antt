-- ===== src/Address/RoundTrip.antt =====
-- `Address::encode` followed by `Address::decode`.
use aex_cpp_sdk.Base.{ℕ, ◌^◌, ◌≤◌, ◌<◌, ◌≡◌, ◌≢◌, refl, sym, ap, ◌∙◌, arith, ◌⊎◌, inl, inr}
use mathlib.Core.Path.{subst}
use aex_cpp_sdk.Base.{List, [], ◌∷◌, length, All, true, false, ◌||◌, bytes_eq}
use aex_cpp_sdk.Bech32.Codec
use aex_cpp_sdk.Bech32.Codec.RoundTrip.{decode-encode}
use aex_cpp_sdk.Bech32.Codec.Scanning.{IsPlain}
use aex_cpp_sdk.Bech32.ConvertBits.RoundTrip.{digits, digits-All, length-digits, pad_length-lt}
use aex_cpp_sdk.Bech32.ConvertBits.RoundTrip.{convert_bits-round_trip}
use aex_cpp_sdk.Address.{Address, binance_hrp, binance_test_hrp, is_empty, decode, encode}

-- An address of one of the two networks, with a key hash of 2 to 40 bytes.
pub record IsBinance (a : Address) : Type 0 where
  pub network : (a.hrp ≡ binance_hrp) ⊎ (a.hrp ≡ binance_test_hrp)
  pub bytes : All (λ x. x < 2 ^ 8) a.key_hash
  pub long : 2 ≤ length a.key_hash
  pub short : length a.key_hash ≤ 40

-- What the networks' names have in common.
record IsHrp (hrp : List ℕ) : Type 0 where
  plain : All IsPlain hrp
  named : hrp ≢ []
  fits : length hrp ≤ 4
  known : (bytes_eq hrp binance_hrp || bytes_eq hrp binance_test_hrp) ≡ true

binance_hrp-IsHrp : IsHrp binance_hrp
unfolding bytes_eq
binance_hrp-IsHrp = record {
  plain = omega arith;
  named = λ e. cc;
  fits = omega arith;
  known = refl;
}

binance_test_hrp-IsHrp : IsHrp binance_test_hrp
unfolding bytes_eq
binance_test_hrp-IsHrp = record {
  plain = omega arith;
  named = λ e. cc;
  fits = omega arith;
  known = refl;
}

network-IsHrp : (a : Address) → IsBinance a → IsHrp a.hrp
network-IsHrp a v = elim v.network [
  | inl e ↦ subst IsHrp (sym e) binance_hrp-IsHrp
  | inr e ↦ subst IsHrp (sym e) binance_test_hrp-IsHrp
]

is_empty-of_pos : (xs : List ℕ) → 0 < length xs → is_empty xs ≡ false
is_empty-of_pos [] h = absurd (omega arith)
is_empty-of_pos (x ∷ xs) h = refl

module _ (a : Address) (v : IsBinance a) where
  abbrev values : List ℕ
  values = digits a.key_hash v.bytes

  -- The text before `encode` checks it.
  abbrev text : List ℕ
  text = Codec.encode a.hrp values

  values-pos : 0 < length values
  values-pos = omega (arith, length-digits a.key_hash v.bytes, v.long)

  pub codec-text : Codec.decode text ≡ (a.hrp, values)
  codec-text =
      let hrp = network-IsHrp a v in
      decode-encode a.hrp values hrp.plain (digits-All a.key_hash v.bytes) hrp.named (
        omega (
          arith,
          length-digits a.key_hash v.bytes,
          pad_length-lt a.key_hash v.bytes,
          hrp.fits,
          v.short,
        ))

  decode-text : decode text ≡ (a, true)
  unfolding decode
  decode-text =
      rw
        (
          codec-text,
          is_empty-of_pos values values-pos,
          (network-IsHrp a v).known,
          convert_bits-round_trip a.key_hash v.bytes,
        )
        (ground (arith, v.long, v.short))

  encode-text : encode a ≡ text
  unfolding encode
  encode-text = rw decode-text refl

  -- `Address::decode` of `Address::encode` gives back the address and success, for an address of one
  -- of the two networks with a key hash of 2 to 40 bytes.
  pub decode-encode_address : decode (encode a) ≡ (a, true)
  decode-encode_address = ap decode encode-text ∙ decode-text

  pub codec-encode : Codec.decode (encode a) ≡ (a.hrp, values)
  codec-encode = ap Codec.decode encode-text ∙ codec-text
