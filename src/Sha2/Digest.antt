-- ===== src/Sha2/Digest.antt =====
-- SHA-1, SHA-256 and SHA-512 as functions of a byte string.
pub mod Padded
pub mod Pieces
use aex_cpp_sdk.Base.{ℕ, ◌+◌, List, [], ◌∷◌, ◌>>◌, u64, bit_and, ltb, if◌then◌else◌}
use aex_cpp_sdk.Sha2.Logic.{reverse32, reverse64}
use aex_cpp_sdk.Sha2.Sha1
use aex_cpp_sdk.Sha2.Sha256
use aex_cpp_sdk.Sha2.Sha512
use aex_cpp_sdk.Sha2.Frame.{Algorithm, Context}
use aex_cpp_sdk.Sha2.Frame

-- The two words of a 64-bit counter.
unfoldable pub bit_words : ℕ → List ℕ
bit_words bits = (bits >> 32) ∷ bit_and bits 0xffffffff ∷ []

abbrev pub sha1 : Algorithm ℕ
sha1 = record {
  word = 4;
  reverse = reverse32;
  transform = Sha1.transform;
  initial = Sha1.sha1_initial_hash_value;
  no_bits = 0;
  low = λ bits. bits;
  add_bits = λ bits n. u64 (bits + n);
  count_words = bit_words;
}

abbrev pub sha256 : Algorithm ℕ
sha256 = record {
  word = 4;
  reverse = reverse32;
  transform = Sha256.transform;
  initial = Sha256.sha256_initial_hash_value;
  no_bits = 0;
  low = λ bits. bits;
  add_bits = λ bits n. u64 (bits + n);
  count_words = bit_words;
}

-- `bitcount[2]`, the low word first, and `ADDINC128`.
pub record Count128 : Type 0 where
  pub bits : ℕ
  pub carries : ℕ

unfoldable pub addinc128 : Count128 → ℕ → Count128
addinc128 w n =
    let sum = u64 (w.bits + u64 n) in
    record { bits = sum; carries = if ltb sum (u64 n) then u64 (w.carries + 1) else w.carries }

unfoldable pub count_words128 : Count128 → List ℕ
count_words128 w = w.carries ∷ w.bits ∷ []

abbrev pub sha512 : Algorithm Count128
sha512 = record {
  word = 8;
  reverse = reverse64;
  transform = Sha512.transform;
  initial = Sha512.sha512_initial_hash_value;
  no_bits = record { bits = 0; carries = 0 };
  low = λ w. w.bits;
  add_bits = addinc128;
  count_words = count_words128;
}

-- `sha1_Init`, `sha1_Update`, `sha1_Final`, `sha1_Raw` and `sha1_Data`.
unfoldable pub sha1_init : Context ℕ
sha1_init = Frame.init sha1

unfoldable pub sha1_update : Context ℕ → List ℕ → Context ℕ
sha1_update = Frame.update sha1

unfoldable pub sha1_final : Context ℕ → List ℕ
sha1_final = Frame.final sha1

unfoldable pub sha1_raw : List ℕ → List ℕ
sha1_raw input = sha1_final (sha1_update sha1_init input)

unfoldable pub sha1_end : Context ℕ → List ℕ
sha1_end c = Frame.hex_text (sha1_final c)

unfoldable pub sha1_data : List ℕ → List ℕ
sha1_data input = sha1_end (sha1_update sha1_init input)

-- The same of SHA-256.
unfoldable pub sha256_init : Context ℕ
sha256_init = Frame.init sha256

unfoldable pub sha256_update : Context ℕ → List ℕ → Context ℕ
sha256_update = Frame.update sha256

unfoldable pub sha256_final : Context ℕ → List ℕ
sha256_final = Frame.final sha256

unfoldable pub sha256_end : Context ℕ → List ℕ
sha256_end c = Frame.hex_text (sha256_final c)

unfoldable pub sha256_raw : List ℕ → List ℕ
sha256_raw input = sha256_final (sha256_update sha256_init input)

unfoldable pub sha256_data : List ℕ → List ℕ
sha256_data input = sha256_end (sha256_update sha256_init input)

-- The same of SHA-512.
unfoldable pub sha512_init : Context Count128
sha512_init = Frame.init sha512

unfoldable pub sha512_update : Context Count128 → List ℕ → Context Count128
sha512_update = Frame.update sha512

unfoldable pub sha512_last : Context Count128 → List ℕ
sha512_last = Frame.last sha512

unfoldable pub sha512_final : Context Count128 → List ℕ
sha512_final = Frame.final sha512

unfoldable pub sha512_end : Context Count128 → List ℕ
sha512_end c = Frame.hex_text (sha512_final c)

unfoldable pub sha512_raw : List ℕ → List ℕ
sha512_raw input = sha512_final (sha512_update sha512_init input)

unfoldable pub sha512_data : List ℕ → List ℕ
sha512_data input = sha512_end (sha512_update sha512_init input)
