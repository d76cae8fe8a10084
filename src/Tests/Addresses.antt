-- ===== src/Tests/Addresses.antt =====
-- The address codec and Bech32 on a key hash of 20 bytes.
use aex_cpp_sdk.Base.{
  List, ℕ, [], ◌∷◌, ◌++◌, ◌≡◌, ◌^◌, ◌<◌, refl, arith, inl, true, false, bytes_eq, All,
}
use aex_cpp_sdk.Bech32.Codec
use aex_cpp_sdk.Bech32.Charset.{codes, charset_at, charset_rev_at, lc}
use aex_cpp_sdk.Bech32.Checksum.{
  verify_checksum, create_checksum, polymod, polymod_from, polymod_step,
}
use aex_cpp_sdk.Bech32.Checksum.{generator, expand_hrp, checksum_digits}
use aex_cpp_sdk.Bech32.Checksum.Verify.{create_checksum_unique, verify_checksum-create_checksum}
use aex_cpp_sdk.Bech32.Codec.RoundTrip.{decode-encode}
use aex_cpp_sdk.Bech32.ConvertBits.{
  convert_bits, convert_loop, convert_step, push_loop, convert_end,
}
use aex_cpp_sdk.Bech32.ConvertBits.RoundTrip.{convert_bits-round_trip, convert_bits_canonical}
use aex_cpp_sdk.Address.{Address, is_valid}
use aex_cpp_sdk.Address
use aex_cpp_sdk.Address.RoundTrip.{IsBinance, decode-encode_address}
use aex_cpp_sdk.Address.Validity.{is_valid-encode}

abbrev first_bytes : List ℕ
first_bytes =
    0x0e ∷ 0xca ∷ 0xd0 ∷ 0xa1 ∷ 0x2b ∷ 0x3c ∷ 0x4d ∷ 0x5e ∷ 0x6f ∷ 0x70 ∷ 0x81 ∷ 0x92 ∷ 0xa3 ∷ 0xb4
    ∷ 0xc5 ∷ 0xd6 ∷ 0xe7 ∷ 0xf8 ∷ 0x09 ∷ []

abbrev key_hash : List ℕ
key_hash = first_bytes ++ (0x1a ∷ [])

abbrev address : Address
address = record { hrp = Address.binance_hrp; key_hash = key_hash }

address-IsBinance : IsBinance address
address-IsBinance = record {
  network = inl refl;
  bytes = omega arith;
  long = omega arith;
  short = omega arith;
}

address_text : Address.encode address ≡ codes "bnb1pm9dpgft83x4ummssxf28dx96mnlszg6kftaef"
unfolding Address.encode Address.decode Codec.encode Codec.decode convert_bits convert_loop
    convert_step push_loop convert_end create_checksum verify_checksum polymod polymod_from
    polymod_step generator expand_hrp checksum_digits Codec.decode_at Codec.read_values Codec.scan
    Codec.scan_char Codec.rfind charset_at charset_rev_at lc bytes_eq
address_text = refl

decode-encode_address_example : Address.decode (Address.encode address) ≡ (address, true)
decode-encode_address_example = decode-encode_address address address-IsBinance

is_valid-encode_example : is_valid (Address.encode address) ≡ false
is_valid-encode_example =
    is_valid-encode address first_bytes 0x1a address-IsBinance refl refl (omega arith)

abbrev digits : List ℕ
digits = 1 ∷ 27 ∷ 5 ∷ 0 ∷ 31 ∷ []

decode-encode_example : Codec.decode (Codec.encode (codes "tbnb") digits) ≡ (codes "tbnb", digits)
decode-encode_example =
    decode-encode (codes "tbnb") digits (omega arith) (omega arith) (λ e. cc) (omega arith)

verify_checksum-create_checksum_example :
    verify_checksum (codes "bnb") (digits ++ create_checksum (codes "bnb") digits) ≡ true
verify_checksum-create_checksum_example = verify_checksum-create_checksum (codes "bnb") digits

convert_bits-round_trip_example :
    convert_bits 5 8 false [] (convert_bits 8 5 true [] key_hash).1 ≡ (true, key_hash)
convert_bits-round_trip_example = convert_bits-round_trip key_hash (omega arith)

digits_accepted : verify_checksum (codes "bnb") (digits ++ (18 ∷ 28 ∷ 27 ∷ 17 ∷ 6 ∷ 10 ∷ [])) ≡ true
unfolding verify_checksum polymod polymod_from polymod_step generator expand_hrp
digits_accepted = refl

two_bytes : convert_bits 5 8 false [] (31 ∷ 28 ∷ 0 ∷ 16 ∷ []) ≡ (true, 0xff ∷ 0x01 ∷ [])
unfolding convert_bits convert_loop convert_step push_loop convert_end
two_bytes = refl

create_checksum_unique_example :
    create_checksum (codes "bnb") digits ≡ 18 ∷ 28 ∷ 27 ∷ 17 ∷ 6 ∷ 10 ∷ []
create_checksum_unique_example =
    create_checksum_unique (codes "bnb") digits 18 28 27 17 6 10 (omega arith) digits_accepted

convert_bits_canonical_example :
    All (λ x. x < 2 ^ 8) (0xff ∷ 0x01 ∷ [])
    × ((convert_bits 8 5 true [] (0xff ∷ 0x01 ∷ [])).1 ≡ 31 ∷ 28 ∷ 0 ∷ 16 ∷ [])
convert_bits_canonical_example =
    convert_bits_canonical (31 ∷ 28 ∷ 0 ∷ 16 ∷ []) (omega arith) two_bytes
