-- ===== src/Prefix/Check.antt =====
-- The prefix that is written passes the check.
use aex_cpp_sdk.Base.{
  ℕ, ◌+◌, ◌*◌, ◌<◌, ◌≤◌, ◌^◌, ◌<<◌, ◌>>◌, List, ◌++◌, ◌≡◌, refl, ◌∙◌, true, false,
}
use aex_cpp_sdk.Base.{
  leb, ltb, ==_iff, Bool-cases, inl, inr, length, arith, bit_and, bit_or, bit_and-low, bit_or-parts,
  u8, u32,
}
use aex_cpp_sdk.Bignum.Bytes.Words.{join}
use aex_cpp_sdk.Prefix.{address_prefix_bytes_len, address_write_prefix_bytes, address_check_prefix}

two : (a b : ℕ) → a < 256 → b < 256 → bit_or (u32 (a << 8)) b ≡ a * 256 + b
two a b ha hb = bit_or-parts 8 a b (omega arith) refl hb ∙ omega arith

three :
    (a b c : ℕ)
    → a < 256
    → b < 256
    → c < 256
    → bit_or (bit_or (u32 (a << 16)) (u32 (b << 8))) c ≡ (a * 256 + b) * 256 + c
three a b c ha hb hc =
    bit_or-parts 8 (a * 256 + b) c
      (bit_or-parts 16 a (b * 2 ^ 8) (omega arith) (omega arith) (omega arith) ∙ omega arith) refl
      hc
    ∙ omega arith

abbrev Accepted : ℕ → List ℕ → Type 0
Accepted t rest =
    (address_check_prefix (address_write_prefix_bytes t ++ rest) t ≡ true)
    × (length (address_write_prefix_bytes t) ≡ address_prefix_bytes_len t)

one_byte : (t : ℕ) (rest : List ℕ) → t < 2 ^ 8 → Accepted t rest
unfolding address_check_prefix address_write_prefix_bytes address_prefix_bytes_len
one_byte t rest h =
    let a : leb t 0xFF ≡ true = ground arith in
    let b : ltb 0xFF t ≡ false = ground arith in
    let c : ltb 0xFFFF t ≡ false = ground arith in
    let d : ltb 0xFFFFFF t ≡ false = ground arith in
    rw (a, b, c, d) ((==_iff t (bit_and t 0xFF)).1 (omega (arith, bit_and-low 8 t)), refl)

two_bytes : (t : ℕ) (rest : List ℕ) → 2 ^ 8 ≤ t → t < 2 ^ 16 → Accepted t rest
unfolding address_check_prefix address_write_prefix_bytes address_prefix_bytes_len
two_bytes t rest g h =
    let a : leb t 0xFF ≡ false = ground arith in
    let a' : leb t 0xFFFF ≡ true = ground arith in
    let b : ltb 0xFF t ≡ true = ground arith in
    let c : ltb 0xFFFF t ≡ false = ground arith in
    let d : ltb 0xFFFFFF t ≡ false = ground arith in
    let y = bit_and-low 8 (t >> 8) in
    let z = bit_and-low 8 t in
    let total =
      two (bit_and (t >> 8) 0xFF) (bit_and t 0xFF) (omega (arith, y)) (omega (arith, z)) in
    rw (a, a', b, c, d) ((==_iff t _).1 (omega (arith, total, y, z)), refl)

three_bytes : (t : ℕ) (rest : List ℕ) → 2 ^ 16 ≤ t → t < 2 ^ 24 → Accepted t rest
unfolding address_check_prefix address_write_prefix_bytes address_prefix_bytes_len
three_bytes t rest g h =
    let a : leb t 0xFF ≡ false = ground arith in
    let a' : leb t 0xFFFF ≡ false = ground arith in
    let a'' : leb t 0xFFFFFF ≡ true = ground arith in
    let b : ltb 0xFF t ≡ true = ground arith in
    let c : ltb 0xFFFF t ≡ true = ground arith in
    let d : ltb 0xFFFFFF t ≡ false = ground arith in
    let x = bit_and-low 8 (t >> 16) in
    let y = bit_and-low 8 (t >> 8) in
    let z = bit_and-low 8 t in
    let total =
      three (bit_and (t >> 16) 0xFF) (bit_and (t >> 8) 0xFF) (bit_and t 0xFF) (omega (arith, x))
        (omega (arith, y)) (omega (arith, z)) in
    rw (a, a', a'', b, c, d) ((==_iff t _).1 (omega (arith, total, x, y, z)), refl)

four_bytes : (t : ℕ) (rest : List ℕ) → 2 ^ 24 ≤ t → t < 2 ^ 32 → Accepted t rest
unfolding address_check_prefix address_write_prefix_bytes address_prefix_bytes_len
four_bytes t rest g h =
    let a : leb t 0xFF ≡ false = ground arith in
    let a' : leb t 0xFFFF ≡ false = ground arith in
    let a'' : leb t 0xFFFFFF ≡ false = ground arith in
    let b : ltb 0xFF t ≡ true = ground arith in
    let c : ltb 0xFFFF t ≡ true = ground arith in
    let d : ltb 0xFFFFFF t ≡ true = ground arith in
    let x = bit_and-low 8 (t >> 16) in
    let y = bit_and-low 8 (t >> 8) in
    let z = bit_and-low 8 t in
    let total =
      join (u8 (t >> 24)) (bit_and (t >> 16) 0xFF) (bit_and (t >> 8) 0xFF) (bit_and t 0xFF)
        (omega arith) (omega (arith, x)) (omega (arith, y)) (omega (arith, z)) in
    rw (a, a', a'', b, c, d) ((==_iff t _).1 (omega (arith, total, x, y, z)), refl)

-- For an address type below `2^32`, `address_check_prefix` accepts what
-- `address_write_prefix_bytes` writes, with any bytes after it, and what it writes has the length
-- that `address_prefix_bytes_len` gives.
pub address_check_prefix-address_write_prefix_bytes :
    (t : ℕ) (rest : List ℕ)
    → t < 2 ^ 32
    → (address_check_prefix (address_write_prefix_bytes t ++ rest) t ≡ true)
      × (length (address_write_prefix_bytes t) ≡ address_prefix_bytes_len t)
address_check_prefix-address_write_prefix_bytes t rest h = elim (Bool-cases (ltb t (2 ^ 16))) [
  | inl low ↦ elim (Bool-cases (ltb t (2 ^ 8))) [
    | inl one ↦ one_byte t rest (ground (arith, one))
    | inr more ↦ two_bytes t rest (ground (arith, more)) (ground (arith, low))
  ]
  | inr high ↦ elim (Bool-cases (ltb t (2 ^ 24))) [
    | inl three ↦ three_bytes t rest (ground (arith, high)) (ground (arith, three))
    | inr more ↦ four_bytes t rest (ground (arith, more)) h
  ]
]
