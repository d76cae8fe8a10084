-- ===== src/Tests/Texts.antt =====
-- Hexadecimal text and version prefixes.
use aex_cpp_sdk.Base.{[], ◌∷◌, ◌++◌, ◌≡◌, refl, arith, true, length}
use aex_cpp_sdk.Prefix.{address_prefix_bytes_len, address_write_prefix_bytes, address_check_prefix}
use aex_cpp_sdk.Prefix.Check.{address_check_prefix-address_write_prefix_bytes}
use aex_cpp_sdk.Bech32.Charset.{codes}
use aex_cpp_sdk.HexCoding
use aex_cpp_sdk.HexCoding.RoundTrip.{parse_hex-hex}

parse_hex-hex_example :
    HexCoding.parse_hex (HexCoding.hex (0 ∷ 0x1f ∷ 0xff ∷ 0xa0 ∷ [])) ≡ 0 ∷ 0x1f ∷ 0xff ∷ 0xa0 ∷ []
parse_hex-hex_example = parse_hex-hex (0 ∷ 0x1f ∷ 0xff ∷ 0xa0 ∷ []) (omega arith)

prefixed : HexCoding.parse_hex (codes "0xFf01a") ≡ 0xff ∷ 0x01 ∷ 0x0a ∷ []
unfolding HexCoding.parse_hex HexCoding.parse_loop HexCoding.skip_prefix HexCoding.digit_value
prefixed = refl

no_hexadecimal : HexCoding.parse_hex (codes "0x-1") ≡ []
unfolding HexCoding.parse_hex HexCoding.parse_loop HexCoding.skip_prefix HexCoding.digit_value
no_hexadecimal = refl

-- A letter past `f` is taken for a digit.
letter_past_f : HexCoding.parse_hex (codes "zz") ≡ 0x33 ∷ []
unfolding HexCoding.parse_hex HexCoding.parse_loop HexCoding.skip_prefix HexCoding.digit_value
letter_past_f = refl

number : HexCoding.hex_uint64 0x1234567890abcdef ≡ codes "1234567890abcdef"
unfolding HexCoding.hex_uint64 HexCoding.hex HexCoding.hexmap_at
number = refl

address_check_prefix-address_write_prefix_bytes_example :
    (address_check_prefix (address_write_prefix_bytes 0x049d7cb2 ++ (7 ∷ 8 ∷ [])) 0x049d7cb2 ≡ true)
    × (length (address_write_prefix_bytes 0x049d7cb2) ≡ address_prefix_bytes_len 0x049d7cb2)
address_check_prefix-address_write_prefix_bytes_example =
    address_check_prefix-address_write_prefix_bytes 0x049d7cb2 (7 ∷ 8 ∷ []) (omega arith)
