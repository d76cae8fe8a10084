-- ===== src/Sha2/Frame.antt =====
-- The `Init`, `Update`, `Final`, `End`, `Raw` and `Data` functions of src/crypto/sha2.c. The three hash
-- functions have the same text up to the word, the transform and the bit counter, which are an `Algorithm`
-- here. A buffer is kept as the bytes of its memory, since `Update` copies bytes into it; `load` and
-- `store` say how a little-endian machine reads a word there.
pub mod Stream
pub mod Bytes
pub mod Memory
pub mod Absorb
pub mod Padding
use aex_cpp_sdk.Base.{ℕ, zero, suc, ◌+◌, ◌-◌, ◌*◌, ◌/◌, ◌%◌, ◌<<◌, ◌>>◌, List, [], ◌∷◌, ◌++◌, map}
use aex_cpp_sdk.Base.{
  length, get_or, take, drop, replicate, ltb, leb, ◌==◌, if◌then◌else◌, bit_and, u8,
}

-- What the three hash functions differ in: the bytes of a word, `REVERSE32` or `REVERSE64`, the
-- transform of the state by a block of words, the initial state, and the bit counter with its increment,
-- the word it is read from and the two words of the padding.
pub record Algorithm (Count : Type 0) : Type 0 where
  pub word : ℕ
  pub reverse : ℕ → ℕ
  pub transform : List ℕ → List ℕ → List ℕ
  pub initial : List ℕ
  pub no_bits : Count
  pub low : Count → ℕ
  pub add_bits : Count → ℕ → Count
  pub count_words : Count → List ℕ

-- `SHA1_CTX`, `SHA256_CTX` and `SHA512_CTX`.
pub record Context (Count : Type 0) : Type 0 where
  pub state : List ℕ
  pub bitcount : Count
  pub buffer : List ℕ

-- The word in the next `n` bytes of memory, and the bytes of a word.
unfoldable pub load : ℕ → List ℕ → ℕ
load zero bytes = 0
load (suc n) bytes = get_or bytes 0 0 + 256 * load n (drop 1 bytes)

unfoldable pub store : ℕ → ℕ → List ℕ
store zero x = []
store (suc n) x = u8 x ∷ store n (x / 256)

-- `count` words of `n` bytes from memory, and their bytes.
unfoldable pub load_words : ℕ → ℕ → List ℕ → List ℕ
load_words n zero bytes = []
load_words n (suc count) bytes = load n bytes ∷ load_words n count (drop n bytes)

unfoldable pub store_words : ℕ → List ℕ → List ℕ
store_words n [] = []
store_words n (w ∷ ws) = store n w ++ store_words n ws

-- `MEMCPY_BCOPY(buffer + used, input, …)`. Nothing is written past the end of the buffer.
unfoldable pub overwrite : List ℕ → List ℕ → List ℕ
overwrite [] buffer = buffer
overwrite (x ∷ xs) [] = []
overwrite (x ∷ xs) (b ∷ bs) = x ∷ overwrite xs bs

unfoldable pub copy_at : ℕ → List ℕ → List ℕ → List ℕ
copy_at zero input buffer = overwrite input buffer
copy_at (suc used) input [] = []
copy_at (suc used) input (b ∷ bs) = b ∷ copy_at used input bs

module _ {Count : Type 0} (alg : Algorithm Count) where
  abbrev pub block_length : ℕ
  block_length = 16 * alg.word

  abbrev pub short_block_length : ℕ
  short_block_length = 14 * alg.word

  -- The conversion of the whole buffer to host byte order, in place, and the transform.
  unfoldable pub process : Context Count → Context Count
  process c =
      let block = map alg.reverse (load_words alg.word 16 c.buffer) in
      record {
        state = alg.transform c.state block;
        bitcount = c.bitcount;
        buffer = store_words alg.word block;
      }

  -- `usedspace`.
  unfoldable pub used_space : Context Count → ℕ
  used_space c = (alg.low c.bitcount >> 3) % block_length

  -- `MEMCPY_BCOPY` to the buffer and the increment of the bit counter.
  unfoldable pub copy_in : ℕ → List ℕ → Context Count → Context Count
  copy_in used input c = record {
    state = c.state;
    bitcount = alg.add_bits c.bitcount (length input << 3);
    buffer = copy_at used input c.buffer;
  }

  -- The left-overs.
  unfoldable pub left_overs : List ℕ → Context Count → Context Count
  left_overs input c = if ltb 0 (length input) then copy_in 0 input c else c

  -- The `while` loop over complete blocks and the left-overs after it.
  unfoldable pub blocks : ℕ → List ℕ → Context Count → Context Count
  blocks zero input c = left_overs input c
  blocks (suc fuel) input c =
      let rest =
        blocks fuel (drop block_length input) (process (copy_in 0 (take block_length input) c)) in
      if leb block_length (length input) then rest else left_overs input c

  -- The loop with a round for every block.
  unfoldable pub all_blocks : List ℕ → Context Count → Context Count
  all_blocks input c = blocks (length input / block_length) input c

  -- `…_Update`.
  unfoldable pub update : Context Count → List ℕ → Context Count
  update c input =
      let used = used_space c in
      let free = block_length - used in
      if length input == 0
      then c
      else if ltb 0 used
      then if leb free (length input)
        then all_blocks (drop free input) (process (copy_in used (take free input) c))
        else copy_in used input c
      else all_blocks input c

  -- `…_Init`.
  unfoldable pub init : Context Count
  init = record { state = alg.initial; bitcount = alg.no_bits; buffer = replicate block_length 0 }

  -- The zero bytes up to `stop`.
  unfoldable pub clear : ℕ → ℕ → List ℕ → List ℕ
  clear used stop buffer = copy_at used (replicate (stop - used) 0) buffer

  -- The second-to-last transform of `…_Final`, where the bit count has no room.
  unfoldable pub pad_block : ℕ → Context Count → Context Count
  pad_block used c =
      process (record {
        state = c.state;
        bitcount = c.bitcount;
        buffer = clear used block_length c.buffer;
      })

  -- The last transform: zero bytes, the first 14 words in host order, and the bit count.
  unfoldable pub last_block : ℕ → Context Count → List ℕ
  last_block used c = alg.transform c.state (
      map alg.reverse (load_words alg.word 14 (clear used short_block_length c.buffer))
      ++ alg.count_words c.bitcount)

  -- The padding and the final state of `…_Final` and of `sha512_Last`.
  unfoldable pub last : Context Count → List ℕ
  last c =
      let used = used_space c + 1 in
      let marked : Context Count = record {
        state = c.state;
        bitcount = c.bitcount;
        buffer = copy_at (used_space c) (0x80 ∷ []) c.buffer;
      } in
      if ltb short_block_length used
      then last_block 0 (pad_block used marked)
      else last_block used marked

  -- `…_Final` for a digest buffer that is not null. The context is zeroed after it.
  unfoldable pub final : Context Count → List ℕ
  final c = store_words alg.word (map alg.reverse (last c))

-- `sha2_hex_digits`, as character codes.
unfoldable pub hex_digit : ℕ → ℕ
hex_digit d = if ltb d 10 then 48 + d else 87 + d

-- The text of `…_End`, without its zero byte.
unfoldable pub hex_text : List ℕ → List ℕ
hex_text [] = []
hex_text (d ∷ ds) = hex_digit (bit_and d 0xf0 >> 4) ∷ hex_digit (bit_and d 0x0f) ∷ hex_text ds
