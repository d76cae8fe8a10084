-- ===== src/HexCoding/RoundTrip.antt =====
-- `parse_hex` after `hex`.
use aex_cpp_sdk.Base.{ℕ, ◌/◌, ◌<◌, ◌<<◌, ◌>>◌, List, [], ◌∷◌, ◌++◌, ◌≡◌, refl, sym, ap, ◌∙◌}
use aex_cpp_sdk.Base.{
  Bool, true, false, ◌&&◌, not, ◌==◌, All, bit_and, bit_or, u8, arith, holds_below, holds_below-at,
}
use aex_cpp_sdk.Base.{append_assoc, append-nil, bit_and-low, bit_or-fields}
use aex_cpp_sdk.HexCoding.{hexmap_at, hex, digit_value, parse_loop, skip_prefix, parse_hex}

-- A digit of the map is read as its position, and it is not the letter of the prefix.
digit_ok : ℕ → Bool
digit_ok v =
    ((digit_value (hexmap_at v)).0 == v)
    && ((digit_value (hexmap_at v)).1 && not (hexmap_at v == b'x'))

digits_ok : holds_below digit_ok 16 ≡ true
unfolding holds_below digit_ok hexmap_at digit_value
digits_ok = refl

record IsDigit (v : ℕ) : Type 0 where
  reads : digit_value (hexmap_at v) ≡ (v, true)
  no_prefix : (hexmap_at v == b'x') ≡ false

digit : (v : ℕ) → v < 16 → IsDigit v
unfolding digit_ok
digit v h =
    let ok = holds_below-at digit_ok 16 v digits_ok h in
    let n : (digit_value (hexmap_at v)).0 ≡ v = ground (arith, ok) in
    let b : (digit_value (hexmap_at v)).1 ≡ true = ground (arith, ok) in
    record { reads = λ i. (n i, b i); no_prefix = ground (arith, ok) }

byte_of_digits : (b : ℕ) → b < 256 → u8 (bit_or ((b >> 4) << 4) (bit_and b 0x0f)) ≡ b
byte_of_digits b h =
    let low = bit_and-low 4 b in
    omega (arith, low, bit_or-fields 4 (b / 16) (bit_and b 15) (omega (arith, low)))

parse_loop-hex :
    (result bytes : List ℕ)
    → All (λ b. b < 256) bytes
    → parse_loop result (hex bytes) ≡ result ++ bytes
unfolding parse_loop hex
parse_loop-hex result [] h = sym (append-nil result)
parse_loop-hex result (b ∷ bs) (h, hs) =
    let high = digit (b >> 4) (omega arith) in
    let low = digit (bit_and b 0x0f) (omega (arith, bit_and-low 4 b)) in
    rw (high.reads, low.reads, byte_of_digits b h)
      (parse_loop-hex (result ++ (b ∷ [])) bs hs ∙ append_assoc result (b ∷ []) bs)

skip_prefix-hex : (bytes : List ℕ) → All (λ b. b < 256) bytes → skip_prefix (hex bytes) ≡ hex bytes
unfolding skip_prefix hex
skip_prefix-hex [] h = refl
skip_prefix-hex (b ∷ bs) (h, hs) =
    let low = digit (bit_and b 0x0f) (omega (arith, bit_and-low 4 b)) in
    ground (arith, low.no_prefix)

-- `parse_hex` of `hex` gives back the bytes, each below 256.
pub parse_hex-hex : (bytes : List ℕ) → All (λ b. b < 256) bytes → parse_hex (hex bytes) ≡ bytes
unfolding parse_hex
parse_hex-hex bytes h = ap (parse_loop []) (skip_prefix-hex bytes h) ∙ parse_loop-hex [] bytes h
