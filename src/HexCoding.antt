-- ===== src/HexCoding.antt =====
-- src/HexCoding.h and src/HexCoding.cpp: byte strings as hexadecimal text. Text is the list of its
-- character codes.
pub mod RoundTrip
use aex_cpp_sdk.Base.{
  ℕ, ◌+◌, ◌-◌, ◌*◌, ◌<<◌, ◌>>◌, List, [], ◌∷◌, ◌++◌, map, Bool, true, false, ◌&&◌,
}
use aex_cpp_sdk.Base.{leb, ◌==◌, if◌then◌else◌, length, get_or, drop, bit_and, bit_or, u8}
use aex_cpp_sdk.Bech32.Charset.{codes}

-- `hexmap[v]`.
unfoldable pub hexmap_at : ℕ → ℕ
hexmap_at v = get_or (codes "0123456789abcdef") v 0

-- `hex` of a range of bytes.
unfoldable pub hex : List ℕ → List ℕ
hex [] = []
hex (val ∷ vals) = hexmap_at (val >> 4) ∷ hexmap_at (bit_and val 0x0f) ∷ hex vals

-- `hex` of a `uint64_t`: its bytes from the highest.
unfoldable pub hex_uint64 : ℕ → List ℕ
hex_uint64 n = hex (map (λ i. u8 (n >> (8 * i))) (7 ∷ 6 ∷ 5 ∷ 4 ∷ 3 ∷ 2 ∷ 1 ∷ 0 ∷ []))

-- `value`: the digit and whether it is one.
unfoldable pub digit_value : ℕ → ℕ × Bool
digit_value c =
    if leb b'0' c && leb c b'9'
    then (c - b'0', true)
    else if leb b'a' c && leb c b'z'
    then (c - b'a' + 10, true)
    else if leb b'A' c && leb c b'Z'
    then (c - b'A' + 10, true)
    else (0, false)

-- The loop of `parse_hex` from a given `result`.
unfoldable pub parse_loop : List ℕ → List ℕ → List ℕ
parse_loop result [] = result
parse_loop result (h ∷ []) =
    let (high, ok) = digit_value h in if ok then result ++ (high ∷ []) else []
parse_loop result (h ∷ l ∷ rest) =
    let (high, ok) = digit_value h in
    let (low, ok') = digit_value l in
    let parsed = parse_loop (result ++ (u8 (bit_or (high << 4) low) ∷ [])) rest in
    if ok then (if ok' then parsed else []) else []

-- The text after a leading `0x`.
unfoldable pub skip_prefix : List ℕ → List ℕ
skip_prefix string =
    if leb 2 (length string) && (get_or string 0 0 == b'0' && get_or string 1 0 == b'x')
    then drop 2 string
    else string

-- `parse_hex`.
unfoldable pub parse_hex : List ℕ → List ℕ
parse_hex string = parse_loop [] (skip_prefix string)
