-- ===== src/Ripemd160.antt =====
-- src/crypto/ripemd160.c: RIPEMD-160.
pub mod Process
use aex_cpp_sdk.Base.{
  ℕ, zero, suc, ◌+◌, ◌-◌, ◌/◌, List, [], ◌∷◌, ◌++◌, ◌&&◌, ltb, leb, ◌==◌, if◌then◌else◌,
}
use aex_cpp_sdk.Base.{length, take, drop, replicate, u32, bit_and, bit_or, ◌<<◌, ◌>>◌}
use aex_cpp_sdk.Sha2.Frame.{store, store_words, copy_at}
use aex_cpp_sdk.Ripemd160.Process.{ripemd160_process}

-- `RIPEMD160_CTX`; `total_low` and `total_high` are `total[0]` and `total[1]`.
pub record Ripemd160Context : Type 0 where
  pub total_low : ℕ
  pub total_high : ℕ
  pub state : List ℕ
  pub buffer : List ℕ

-- `ripemd160_Init`.
unfoldable pub ripemd160_init : Ripemd160Context
ripemd160_init = record {
  total_low = 0;
  total_high = 0;
  state = 0x67452301 ∷ 0xEFCDAB89 ∷ 0x98BADCFE ∷ 0x10325476 ∷ 0xC3D2E1F0 ∷ [];
  buffer = replicate 64 0;
}

-- The bytes that are counted.
unfoldable pub count_bytes : Ripemd160Context → ℕ → Ripemd160Context
count_bytes ctx ilen =
    let low = u32 (ctx.total_low + ilen) in
    record {
      total_low = low;
      total_high = if ltb low ilen then u32 (ctx.total_high + 1) else ctx.total_high;
      state = ctx.state;
      buffer = ctx.buffer;
    }

-- The `memcpy` to the buffer.
unfoldable pub fill_buffer : ℕ → List ℕ → Ripemd160Context → Ripemd160Context
fill_buffer left input ctx = record {
  total_low = ctx.total_low;
  total_high = ctx.total_high;
  state = ctx.state;
  buffer = copy_at left input ctx.buffer;
}

-- The state after a block.
unfoldable pub process_block : List ℕ → Ripemd160Context → Ripemd160Context
process_block bytes ctx = record {
  total_low = ctx.total_low;
  total_high = ctx.total_high;
  state = ripemd160_process ctx.state bytes;
  buffer = ctx.buffer;
}

-- The `while` loop and the rest of the input; `fuel` rounds are as many as there are blocks.
unfoldable pub whole_blocks : ℕ → ℕ → List ℕ → Ripemd160Context → Ripemd160Context
whole_blocks zero left input ctx = if ltb 0 (length input) then fill_buffer left input ctx else ctx
whole_blocks (suc fuel) left input ctx =
    whole_blocks fuel left (drop 64 input) (process_block (take 64 input) ctx)

-- `ripemd160_Update`, for an input of fewer than `2^32` bytes.
unfoldable pub ripemd160_update : Ripemd160Context → List ℕ → Ripemd160Context
ripemd160_update ctx input =
    let left = bit_and ctx.total_low 0x3F in
    let fill = 64 - left in
    let counted = count_bytes ctx (length input) in
    let filled = fill_buffer left (take fill input) counted in
    let rest = drop fill input in
    if length input == 0
    then ctx
    else if ltb 0 left && leb fill (length input)
    then whole_blocks (length rest / 64) 0 rest (process_block filled.buffer filled)
    else whole_blocks (length input / 64) left input counted

-- `ripemd160_padding`.
abbrev pub ripemd160_padding : List ℕ
ripemd160_padding = 0x80 ∷ replicate 63 0

-- The 8 bytes of the number of bits.
unfoldable pub message_length : Ripemd160Context → List ℕ
message_length ctx =
    let high = bit_or (ctx.total_low >> 29) (u32 (ctx.total_high << 3)) in
    let low = u32 (ctx.total_low << 3) in store 4 low ++ store 4 high

-- `ripemd160_Final`: the digest.
unfoldable pub ripemd160_final : Ripemd160Context → List ℕ
ripemd160_final ctx =
    let msglen = message_length ctx in
    let last = bit_and ctx.total_low 0x3F in
    let padn = if ltb last 56 then 56 - last else 120 - last in
    store_words 4
      (ripemd160_update (ripemd160_update ctx (take padn ripemd160_padding)) msglen).state

-- `ripemd160`.
unfoldable pub ripemd160 : List ℕ → List ℕ
ripemd160 msg = ripemd160_final (ripemd160_update ripemd160_init msg)
