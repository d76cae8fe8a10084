-- ===== src/Sha2/Sha256.antt =====
-- `sha256_Transform` of src/crypto/sha2.c and its constants.
use aex_cpp_sdk.Base.{ℕ, zero, suc, ◌+◌, List, [], ◌∷◌, get_or, set, replicate, bit_and, u32}
use aex_cpp_sdk.Sha2.Logic.{ch, maj, big_sigma0_256, big_sigma1_256, sigma0_256, sigma1_256}

-- `K256`.
abbrev pub k256 : List ℕ
k256 =
    0x428a2f98 ∷ 0x71374491 ∷ 0xb5c0fbcf ∷ 0xe9b5dba5 ∷ 0x3956c25b ∷ 0x59f111f1 ∷ 0x923f82a4
    ∷ 0xab1c5ed5 ∷ 0xd807aa98 ∷ 0x12835b01 ∷ 0x243185be ∷ 0x550c7dc3 ∷ 0x72be5d74 ∷ 0x80deb1fe
    ∷ 0x9bdc06a7 ∷ 0xc19bf174 ∷ 0xe49b69c1 ∷ 0xefbe4786 ∷ 0x0fc19dc6 ∷ 0x240ca1cc ∷ 0x2de92c6f
    ∷ 0x4a7484aa ∷ 0x5cb0a9dc ∷ 0x76f988da ∷ 0x983e5152 ∷ 0xa831c66d ∷ 0xb00327c8 ∷ 0xbf597fc7
    ∷ 0xc6e00bf3 ∷ 0xd5a79147 ∷ 0x06ca6351 ∷ 0x14292967 ∷ 0x27b70a85 ∷ 0x2e1b2138 ∷ 0x4d2c6dfc
    ∷ 0x53380d13 ∷ 0x650a7354 ∷ 0x766a0abb ∷ 0x81c2c92e ∷ 0x92722c85 ∷ 0xa2bfe8a1 ∷ 0xa81a664b
    ∷ 0xc24b8b70 ∷ 0xc76c51a3 ∷ 0xd192e819 ∷ 0xd6990624 ∷ 0xf40e3585 ∷ 0x106aa070 ∷ 0x19a4c116
    ∷ 0x1e376c08 ∷ 0x2748774c ∷ 0x34b0bcb5 ∷ 0x391c0cb3 ∷ 0x4ed8aa4a ∷ 0x5b9cca4f ∷ 0x682e6ff3
    ∷ 0x748f82ee ∷ 0x78a5636f ∷ 0x84c87814 ∷ 0x8cc70208 ∷ 0x90befffa ∷ 0xa4506ceb ∷ 0xbef9a3f7
    ∷ 0xc67178f2 ∷ []

-- `sha256_initial_hash_value`.
abbrev pub sha256_initial_hash_value : List ℕ
sha256_initial_hash_value =
    0x6a09e667 ∷ 0xbb67ae85 ∷ 0x3c6ef372 ∷ 0xa54ff53a ∷ 0x510e527f ∷ 0x9b05688c ∷ 0x1f83d9ab
    ∷ 0x5be0cd19 ∷ []

-- The registers `a` to `h`.
pub record Registers : Type 0 where
  pub a : ℕ
  pub b : ℕ
  pub c : ℕ
  pub d : ℕ
  pub e : ℕ
  pub f : ℕ
  pub g : ℕ
  pub h : ℕ

-- The registers and the circular array `W256`.
pub record Rounds : Type 0 where
  pub regs : Registers
  pub words : List ℕ

-- One application of the compression function, for a round constant and a message word.
unfoldable pub compress : Registers → ℕ → ℕ → Registers
unfolding ch maj big_sigma0_256 big_sigma1_256
compress r k w =
    let t1 = u32 (r.h + big_sigma1_256 r.e + ch r.e r.f r.g + k + w) in
    let t2 = u32 (big_sigma0_256 r.a + maj r.a r.b r.c) in
    record {
      a = u32 (t1 + t2);
      b = r.a;
      c = r.b;
      d = r.c;
      e = u32 (r.d + t1);
      f = r.e;
      g = r.f;
      h = r.g;
    }

-- The first loop: round `j` takes `*data++`, with `left` rounds to go.
unfoldable pub data_rounds : List ℕ → ℕ → ℕ → Rounds → Rounds
unfolding compress
data_rounds block zero j s = s
data_rounds block (suc left) j s =
    let w = get_or block j 0 in
    data_rounds block left (j + 1)
      (record { regs = compress s.regs (get_or k256 j 0) w; words = set s.words j w })

-- `W256[j&0x0f] += s1 + W256[(j+9)&0x0f] + s0`.
unfoldable pub next_word : List ℕ → ℕ → ℕ
unfolding sigma0_256 sigma1_256
next_word words j =
    let s0 = sigma0_256 (get_or words (bit_and (j + 1) 0x0f) 0) in
    let s1 = sigma1_256 (get_or words (bit_and (j + 14) 0x0f) 0) in
    u32 (get_or words (bit_and j 0x0f) 0 + (s1 + get_or words (bit_and (j + 9) 0x0f) 0 + s0))

-- The second loop: round `j` takes the word that it puts into the array.
unfoldable pub schedule_rounds : ℕ → ℕ → Rounds → Rounds
unfolding compress next_word
schedule_rounds zero j s = s
schedule_rounds (suc left) j s =
    let w = next_word s.words j in
    schedule_rounds left (j + 1) (record {
      regs = compress s.regs (get_or k256 j 0) w;
      words = set s.words (bit_and j 0x0f) w;
    })

-- `state_out[i] = state_in[i] + …`.
unfoldable pub add_registers : List ℕ → Registers → List ℕ
add_registers s r =
    u32 (get_or s 0 0 + r.a)
    ∷ u32 (get_or s 1 0 + r.b)
    ∷ u32 (get_or s 2 0 + r.c)
    ∷ u32 (get_or s 3 0 + r.d)
    ∷ u32 (get_or s 4 0 + r.e)
    ∷ u32 (get_or s 5 0 + r.f)
    ∷ u32 (get_or s 6 0 + r.g)
    ∷ u32 (get_or s 7 0 + r.h)
    ∷ []

-- `sha256_Transform`, with `W256` zero at first: every entry is written before it is read.
unfoldable pub transform : List ℕ → List ℕ → List ℕ
unfolding data_rounds schedule_rounds add_registers
transform state_in block =
    let start : Registers = record {
      a = get_or state_in 0 0;
      b = get_or state_in 1 0;
      c = get_or state_in 2 0;
      d = get_or state_in 3 0;
      e = get_or state_in 4 0;
      f = get_or state_in 5 0;
      g = get_or state_in 6 0;
      h = get_or state_in 7 0;
    } in
    let first = data_rounds block 16 0 (record { regs = start; words = replicate 16 0 }) in
    let last = schedule_rounds 48 16 first in add_registers state_in last.regs
