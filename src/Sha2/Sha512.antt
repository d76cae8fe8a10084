-- ===== src/Sha2/Sha512.antt =====
-- `sha512_Transform` of src/crypto/sha2.c and its constants.
use aex_cpp_sdk.Base.{ℕ, zero, suc, ◌+◌, List, [], ◌∷◌, get_or, set, replicate, bit_and, u64}
use aex_cpp_sdk.Sha2.Logic.{ch64, maj, big_sigma0_512, big_sigma1_512, sigma0_512, sigma1_512}

-- `K512`.
abbrev pub k512 : List ℕ
k512 =
    0x428a2f98d728ae22 ∷ 0x7137449123ef65cd ∷ 0xb5c0fbcfec4d3b2f ∷ 0xe9b5dba58189dbbc
    ∷ 0x3956c25bf348b538 ∷ 0x59f111f1b605d019 ∷ 0x923f82a4af194f9b ∷ 0xab1c5ed5da6d8118
    ∷ 0xd807aa98a3030242 ∷ 0x12835b0145706fbe ∷ 0x243185be4ee4b28c ∷ 0x550c7dc3d5ffb4e2
    ∷ 0x72be5d74f27b896f ∷ 0x80deb1fe3b1696b1 ∷ 0x9bdc06a725c71235 ∷ 0xc19bf174cf692694
    ∷ 0xe49b69c19ef14ad2 ∷ 0xefbe4786384f25e3 ∷ 0x0fc19dc68b8cd5b5 ∷ 0x240ca1cc77ac9c65
    ∷ 0x2de92c6f592b0275 ∷ 0x4a7484aa6ea6e483 ∷ 0x5cb0a9dcbd41fbd4 ∷ 0x76f988da831153b5
    ∷ 0x983e5152ee66dfab ∷ 0xa831c66d2db43210 ∷ 0xb00327c898fb213f ∷ 0xbf597fc7beef0ee4
    ∷ 0xc6e00bf33da88fc2 ∷ 0xd5a79147930aa725 ∷ 0x06ca6351e003826f ∷ 0x142929670a0e6e70
    ∷ 0x27b70a8546d22ffc ∷ 0x2e1b21385c26c926 ∷ 0x4d2c6dfc5ac42aed ∷ 0x53380d139d95b3df
    ∷ 0x650a73548baf63de ∷ 0x766a0abb3c77b2a8 ∷ 0x81c2c92e47edaee6 ∷ 0x92722c851482353b
    ∷ 0xa2bfe8a14cf10364 ∷ 0xa81a664bbc423001 ∷ 0xc24b8b70d0f89791 ∷ 0xc76c51a30654be30
    ∷ 0xd192e819d6ef5218 ∷ 0xd69906245565a910 ∷ 0xf40e35855771202a ∷ 0x106aa07032bbd1b8
    ∷ 0x19a4c116b8d2d0c8 ∷ 0x1e376c085141ab53 ∷ 0x2748774cdf8eeb99 ∷ 0x34b0bcb5e19b48a8
    ∷ 0x391c0cb3c5c95a63 ∷ 0x4ed8aa4ae3418acb ∷ 0x5b9cca4f7763e373 ∷ 0x682e6ff3d6b2b8a3
    ∷ 0x748f82ee5defb2fc ∷ 0x78a5636f43172f60 ∷ 0x84c87814a1f0ab72 ∷ 0x8cc702081a6439ec
    ∷ 0x90befffa23631e28 ∷ 0xa4506cebde82bde9 ∷ 0xbef9a3f7b2c67915 ∷ 0xc67178f2e372532b
    ∷ 0xca273eceea26619c ∷ 0xd186b8c721c0c207 ∷ 0xeada7dd6cde0eb1e ∷ 0xf57d4f7fee6ed178
    ∷ 0x06f067aa72176fba ∷ 0x0a637dc5a2c898a6 ∷ 0x113f9804bef90dae ∷ 0x1b710b35131c471b
    ∷ 0x28db77f523047d84 ∷ 0x32caab7b40c72493 ∷ 0x3c9ebe0a15c9bebc ∷ 0x431d67c49c100d4c
    ∷ 0x4cc5d4becb3e42b6 ∷ 0x597f299cfc657e2a ∷ 0x5fcb6fab3ad6faec ∷ 0x6c44198c4a475817 ∷ []

-- `sha512_initial_hash_value`.
abbrev pub sha512_initial_hash_value : List ℕ
sha512_initial_hash_value =
    0x6a09e667f3bcc908 ∷ 0xbb67ae8584caa73b ∷ 0x3c6ef372fe94f82b ∷ 0xa54ff53a5f1d36f1
    ∷ 0x510e527fade682d1 ∷ 0x9b05688c2b3e6c1f ∷ 0x1f83d9abfb41bd6b ∷ 0x5be0cd19137e2179 ∷ []

-- The registers `a` to `h`.
pub record Registers : Type 0 where
  pub a : ℕ
  pub b : ℕ
  pub c : ℕ
  pub d : ℕ
  pub e : ℕ
  pub f : ℕ
  pub g : ℕ
  pub h : ℕ

-- The registers and the circular array `W512`.
pub record Rounds : Type 0 where
  pub regs : Registers
  pub words : List ℕ

-- One application of the compression function, for a round constant and a message word.
unfoldable pub compress : Registers → ℕ → ℕ → Registers
unfolding ch64 maj big_sigma0_512 big_sigma1_512
compress r k w =
    let t1 = u64 (r.h + big_sigma1_512 r.e + ch64 r.e r.f r.g + k + w) in
    let t2 = u64 (big_sigma0_512 r.a + maj r.a r.b r.c) in
    record {
      a = u64 (t1 + t2);
      b = r.a;
      c = r.b;
      d = r.c;
      e = u64 (r.d + t1);
      f = r.e;
      g = r.f;
      h = r.g;
    }

-- The first loop: round `j` takes `*data++`, with `left` rounds to go.
unfoldable pub data_rounds : List ℕ → ℕ → ℕ → Rounds → Rounds
unfolding compress
data_rounds block zero j s = s
data_rounds block (suc left) j s =
    let w = get_or block j 0 in
    data_rounds block left (j + 1)
      (record { regs = compress s.regs (get_or k512 j 0) w; words = set s.words j w })

-- `W512[j&0x0f] += s1 + W512[(j+9)&0x0f] + s0`.
unfoldable pub next_word : List ℕ → ℕ → ℕ
unfolding sigma0_512 sigma1_512
next_word words j =
    let s0 = sigma0_512 (get_or words (bit_and (j + 1) 0x0f) 0) in
    let s1 = sigma1_512 (get_or words (bit_and (j + 14) 0x0f) 0) in
    u64 (get_or words (bit_and j 0x0f) 0 + (s1 + get_or words (bit_and (j + 9) 0x0f) 0 + s0))

-- The second loop: round `j` takes the word that it puts into the array.
unfoldable pub schedule_rounds : ℕ → ℕ → Rounds → Rounds
unfolding compress next_word
schedule_rounds zero j s = s
schedule_rounds (suc left) j s =
    let w = next_word s.words j in
    schedule_rounds left (j + 1) (record {
      regs = compress s.regs (get_or k512 j 0) w;
      words = set s.words (bit_and j 0x0f) w;
    })

-- `state_out[i] = state_in[i] + …`.
unfoldable pub add_registers : List ℕ → Registers → List ℕ
add_registers s r =
    u64 (get_or s 0 0 + r.a)
    ∷ u64 (get_or s 1 0 + r.b)
    ∷ u64 (get_or s 2 0 + r.c)
    ∷ u64 (get_or s 3 0 + r.d)
    ∷ u64 (get_or s 4 0 + r.e)
    ∷ u64 (get_or s 5 0 + r.f)
    ∷ u64 (get_or s 6 0 + r.g)
    ∷ u64 (get_or s 7 0 + r.h)
    ∷ []

-- `sha512_Transform`, with `W512` zero at first: every entry is written before it is read.
unfoldable pub transform : List ℕ → List ℕ → List ℕ
unfolding data_rounds schedule_rounds add_registers
transform state_in block =
    let start : Registers = record {
      a = get_or state_in 0 0;
      b = get_or state_in 1 0;
      c = get_or state_in 2 0;
      d = get_or state_in 3 0;
      e = get_or state_in 4 0;
      f = get_or state_in 5 0;
      g = get_or state_in 6 0;
      h = get_or state_in 7 0;
    } in
    let first = data_rounds block 16 0 (record { regs = start; words = replicate 16 0 }) in
    let last = schedule_rounds 64 16 first in add_registers state_in last.regs
