-- ===== src/Sha2/Sha1.antt =====
-- `sha1_Transform` of src/crypto/sha2.c and its constants.
use aex_cpp_sdk.Base.{
  ℕ, zero, suc, ◌+◌, List, [], ◌∷◌, get_or, set, replicate, bit_and, bit_xor, u32,
}
use aex_cpp_sdk.Sha2.Logic.{ch, maj, parity, rotl32}

-- `sha1_initial_hash_value`.
abbrev pub sha1_initial_hash_value : List ℕ
sha1_initial_hash_value = 0x67452301 ∷ 0xefcdab89 ∷ 0x98badcfe ∷ 0x10325476 ∷ 0xc3d2e1f0 ∷ []

-- The registers `a` to `e`.
pub record Registers : Type 0 where
  pub a : ℕ
  pub b : ℕ
  pub c : ℕ
  pub d : ℕ
  pub e : ℕ

-- The registers and the circular array `W1`.
pub record Rounds : Type 0 where
  pub regs : Registers
  pub words : List ℕ

-- The body shared by the five loops, for a logical function's value, a constant and a message word.
unfoldable pub compress : Registers → ℕ → ℕ → ℕ → Registers
unfolding rotl32
compress r f k w =
    let t1 = u32 (rotl32 5 r.a + f + r.e + k + w) in
    record { a = t1; b = r.a; c = rotl32 30 r.b; d = r.c; e = r.d }

-- Rounds 0 to 15 take `*data++`.
unfoldable pub data_rounds : List ℕ → ℕ → ℕ → Rounds → Rounds
unfolding compress ch
data_rounds block zero j s = s
data_rounds block (suc left) j s =
    let w = get_or block j 0 in
    let f = ch s.regs.b s.regs.c s.regs.d in
    data_rounds block left (j + 1)
      (record { regs = compress s.regs f 0x5a827999 w; words = set s.words j w })

-- `W1[j&0x0f] = ROTL32(1, T1)`, for the exclusive or of four older words.
unfoldable pub next_word : List ℕ → ℕ → ℕ
unfolding rotl32
next_word words j = rotl32 1 (
    bit_xor
      (bit_xor
        (bit_xor (get_or words (bit_and (j + 13) 0x0f) 0) (get_or words (bit_and (j + 8) 0x0f) 0))
        (get_or words (bit_and (j + 2) 0x0f) 0))
      (get_or words (bit_and j 0x0f) 0))

-- A later loop, with its logical function and constant.
unfoldable pub schedule_rounds : (ℕ → ℕ → ℕ → ℕ) → ℕ → ℕ → ℕ → Rounds → Rounds
unfolding compress next_word
schedule_rounds f k zero j s = s
schedule_rounds f k (suc left) j s =
    let w = next_word s.words j in
    schedule_rounds f k left (j + 1) (record {
      regs = compress s.regs (f s.regs.b s.regs.c s.regs.d) k w;
      words = set s.words (bit_and j 0x0f) w;
    })

-- `state_out[i] = state_in[i] + …`.
unfoldable pub add_registers : List ℕ → Registers → List ℕ
add_registers s r =
    u32 (get_or s 0 0 + r.a)
    ∷ u32 (get_or s 1 0 + r.b)
    ∷ u32 (get_or s 2 0 + r.c)
    ∷ u32 (get_or s 3 0 + r.d)
    ∷ u32 (get_or s 4 0 + r.e)
    ∷ []

-- `sha1_Transform`, with `W1` zero at first: every entry is written before it is read.
unfoldable pub transform : List ℕ → List ℕ → List ℕ
unfolding data_rounds schedule_rounds add_registers ch maj parity
transform state_in block =
    let start : Registers = record {
      a = get_or state_in 0 0;
      b = get_or state_in 1 0;
      c = get_or state_in 2 0;
      d = get_or state_in 3 0;
      e = get_or state_in 4 0;
    } in
    let s16 = data_rounds block 16 0 (record { regs = start; words = replicate 16 0 }) in
    let s20 = schedule_rounds ch 0x5a827999 4 16 s16 in
    let s40 = schedule_rounds parity 0x6ed9eba1 20 20 s20 in
    let s60 = schedule_rounds maj 0x8f1bbcdc 20 40 s40 in
    let s80 = schedule_rounds parity 0xca62c1d6 20 60 s60 in add_registers state_in s80.regs
