-- ===== src/Sha2/Logic.antt =====
-- The logical functions of src/crypto/sha2.c, and the reversal of the bytes of a word.
use aex_cpp_sdk.Base.{ℕ, ◌-◌, ◌^◌, bit_and, bit_or, bit_xor, u32, u64, not32, ◌<<◌, ◌>>◌}

-- `ROTR32`, `ROTL32` and `ROTR64`.
unfoldable pub rotr32 : ℕ → ℕ → ℕ
rotr32 b x = bit_or (x >> b) (u32 (x << (32 - b)))

unfoldable pub rotl32 : ℕ → ℕ → ℕ
rotl32 b x = bit_or (u32 (x << b)) (x >> (32 - b))

unfoldable pub rotr64 : ℕ → ℕ → ℕ
rotr64 b x = bit_or (x >> b) (u64 (x << (64 - b)))

-- `~x` in `uint64_t`.
abbrev pub not64 : ℕ → ℕ
not64 x = 2 ^ 64 - 1 - x

-- `Ch` on 32 and on 64 bits, `Maj` and `Parity`.
unfoldable pub ch : ℕ → ℕ → ℕ → ℕ
ch x y z = bit_xor (bit_and x y) (bit_and (not32 x) z)

unfoldable pub ch64 : ℕ → ℕ → ℕ → ℕ
ch64 x y z = bit_xor (bit_and x y) (bit_and (not64 x) z)

unfoldable pub maj : ℕ → ℕ → ℕ → ℕ
maj x y z = bit_xor (bit_xor (bit_and x y) (bit_and x z)) (bit_and y z)

unfoldable pub parity : ℕ → ℕ → ℕ → ℕ
parity x y z = bit_xor (bit_xor x y) z

-- `Sigma0_256`, `Sigma1_256`, `sigma0_256` and `sigma1_256`.
unfoldable pub big_sigma0_256 : ℕ → ℕ
unfolding rotr32
big_sigma0_256 x = bit_xor (bit_xor (rotr32 2 x) (rotr32 13 x)) (rotr32 22 x)

unfoldable pub big_sigma1_256 : ℕ → ℕ
unfolding rotr32
big_sigma1_256 x = bit_xor (bit_xor (rotr32 6 x) (rotr32 11 x)) (rotr32 25 x)

unfoldable pub sigma0_256 : ℕ → ℕ
unfolding rotr32
sigma0_256 x = bit_xor (bit_xor (rotr32 7 x) (rotr32 18 x)) (x >> 3)

unfoldable pub sigma1_256 : ℕ → ℕ
unfolding rotr32
sigma1_256 x = bit_xor (bit_xor (rotr32 17 x) (rotr32 19 x)) (x >> 10)

-- `Sigma0_512`, `Sigma1_512`, `sigma0_512` and `sigma1_512`.
unfoldable pub big_sigma0_512 : ℕ → ℕ
unfolding rotr64
big_sigma0_512 x = bit_xor (bit_xor (rotr64 28 x) (rotr64 34 x)) (rotr64 39 x)

unfoldable pub big_sigma1_512 : ℕ → ℕ
unfolding rotr64
big_sigma1_512 x = bit_xor (bit_xor (rotr64 14 x) (rotr64 18 x)) (rotr64 41 x)

unfoldable pub sigma0_512 : ℕ → ℕ
unfolding rotr64
sigma0_512 x = bit_xor (bit_xor (rotr64 1 x) (rotr64 8 x)) (x >> 7)

unfoldable pub sigma1_512 : ℕ → ℕ
unfolding rotr64
sigma1_512 x = bit_xor (bit_xor (rotr64 19 x) (rotr64 61 x)) (x >> 6)

-- `REVERSE32`.
unfoldable pub reverse32 : ℕ → ℕ
reverse32 w =
    let tmp = bit_or (w >> 16) (u32 (w << 16)) in
    bit_or (bit_and tmp 0xff00ff00 >> 8) (u32 (bit_and tmp 0x00ff00ff << 8))

-- `REVERSE64`.
unfoldable pub reverse64 : ℕ → ℕ
reverse64 w =
    let tmp = bit_or (w >> 32) (u64 (w << 32)) in
    let tmp' =
      bit_or (bit_and tmp 0xff00ff00ff00ff00 >> 8) (u64 (bit_and tmp 0x00ff00ff00ff00ff << 8)) in
    bit_or (bit_and tmp' 0xffff0000ffff0000 >> 16) (u64 (bit_and tmp' 0x0000ffff0000ffff << 16))
