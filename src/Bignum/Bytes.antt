-- ===== src/Bignum/Bytes.antt =====
-- Numbers and byte strings, in both byte orders.
pub mod Bounds
pub mod Words
pub mod Read
pub mod Write
use aex_cpp_sdk.Base.{ℕ, zero, suc, ◌+◌, ◌-◌, ◌*◌, List, [], ◌∷◌, ◌++◌, get_or, drop, replicate}
use aex_cpp_sdk.Base.{u8, u32, u64, bit_and, bit_or, ◌<<◌, ◌>>◌}

-- `read_be` and `read_le` of the four bytes at a pointer.
unfoldable pub read_be : List ℕ → ℕ
read_be bytes =
    bit_or
      (bit_or (bit_or (u32 (get_or bytes 0 0 << 24)) (u32 (get_or bytes 1 0 << 16)))
        (u32 (get_or bytes 2 0 << 8)))
      (get_or bytes 3 0)

unfoldable pub read_le : List ℕ → ℕ
read_le bytes =
    bit_or
      (bit_or (bit_or (u32 (get_or bytes 3 0 << 24)) (u32 (get_or bytes 2 0 << 16)))
        (u32 (get_or bytes 1 0 << 8)))
      (get_or bytes 0 0)

-- `write_be` and `write_le`: the four bytes that are written.
unfoldable pub write_be : ℕ → List ℕ
write_be x = u8 (x >> 24) ∷ u8 (x >> 16) ∷ u8 (x >> 8) ∷ u8 x ∷ []

unfoldable pub write_le : ℕ → List ℕ
write_le x = u8 x ∷ u8 (x >> 8) ∷ u8 (x >> 16) ∷ u8 (x >> 24) ∷ []

-- The loop of `bn_read_be` and `bn_read_le` at round `i`, with `left` rounds to go; `word i` is the
-- word of weight `2^(32 i)`. The last limb is what `temp` holds at the end.
unfoldable pub read_loop : (ℕ → ℕ) → ℕ → ℕ → ℕ → List ℕ
read_loop word zero i temp = temp ∷ []
read_loop word (suc left) i temp =
    let limb = word i in
    bit_and (bit_or temp (u32 (limb << (2 * i)))) 0x3FFFFFFF
    ∷ read_loop word left (i + 1) (limb >> (30 - 2 * i))

-- `bn_read_be` and `bn_read_le`.
unfoldable pub bn_read_be : List ℕ → List ℕ
bn_read_be in_number = read_loop (λ i. read_be (drop ((7 - i) * 4) in_number)) 8 0 0

unfoldable pub bn_read_le : List ℕ → List ℕ
bn_read_le in_number = read_loop (λ i. read_le (drop (i * 4) in_number)) 8 0 0

-- The words that the loop of `bn_write_be` and `bn_write_le` writes, the highest first.
unfoldable pub write_loop : List ℕ → ℕ → ℕ → ℕ → List ℕ
write_loop a zero i temp = []
write_loop a (suc left) i temp =
    let limb = get_or a (7 - i) 0 in
    bit_or (u32 (temp << (16 + 2 * i))) (limb >> (14 - 2 * i)) ∷ write_loop a left (i + 1) limb

-- Big-endian words to bytes, and the same words from the far end in little-endian.
unfoldable pub words_be : List ℕ → List ℕ
words_be [] = []
words_be (w ∷ ws) = write_be w ++ words_be ws

unfoldable pub words_le : List ℕ → List ℕ
words_le [] = []
words_le (w ∷ ws) = words_le ws ++ write_le w

-- `bn_write_be` and `bn_write_le`.
unfoldable pub bn_write_be : List ℕ → List ℕ
bn_write_be a = words_be (write_loop a 8 0 (get_or a 8 0))

unfoldable pub bn_write_le : List ℕ → List ℕ
bn_write_le a = words_le (write_loop a 8 0 (get_or a 8 0))

-- `bn_read_uint32` and `bn_read_uint64`.
unfoldable pub bn_read_uint32 : ℕ → List ℕ
bn_read_uint32 n = bit_and n 0x3FFFFFFF ∷ (n >> 30) ∷ replicate 7 0

unfoldable pub bn_read_uint64 : ℕ → List ℕ
bn_read_uint64 n =
    let n' = n >> 30 in
    bit_and n 0x3FFFFFFF ∷ bit_and n' 0x3FFFFFFF ∷ u32 (n' >> 30) ∷ replicate 6 0

-- `bn_write_uint32` and `bn_write_uint64`.
unfoldable pub bn_write_uint32 : List ℕ → ℕ
bn_write_uint32 a = bit_or (get_or a 0 0) (u32 (get_or a 1 0 << 30))

unfoldable pub bn_write_uint64 : List ℕ → ℕ
bn_write_uint64 a =
    let high = bit_or (u64 (get_or a 2 0 << 30)) (get_or a 1 0) in
    bit_or (u64 (high << 30)) (get_or a 0 0)
