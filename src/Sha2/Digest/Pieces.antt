-- ===== src/Sha2/Digest/Pieces.antt =====
-- `sha1_Update` and `sha256_Update` on a message that comes in pieces.
use aex_cpp_sdk.Base.{ℕ, ◌+◌, ◌%◌, ◌<◌, ◌<<◌, ◌>>◌, ◌≡◌, List, ◌++◌, arith, u64}
use aex_cpp_sdk.Sha2.Frame.{Context}
use aex_cpp_sdk.Sha2.Frame.Stream.{IsCounting, update-append}
use aex_cpp_sdk.Sha2.Digest.{sha1, sha256, sha1_update, sha256_update}

-- A 64-bit counter, for blocks of 64 bytes.
count_fits : (b n : ℕ) → (b >> 3) % 64 + n < 64 → (u64 (b + (n << 3)) >> 3) % 64 ≡ (b >> 3) % 64 + n
count_fits b n h = omega arith

count_fills : (b n : ℕ) → (b >> 3) % 64 + n ≡ 64 → (u64 (b + (n << 3)) >> 3) % 64 ≡ 0
count_fills b n h = omega arith

count_adds : (b m n : ℕ) → u64 (u64 (b + (m << 3)) + (n << 3)) ≡ u64 (b + ((m + n) << 3))
count_adds b m n = omega arith

sha1-IsCounting : IsCounting sha1
sha1-IsCounting = record {
  below = λ b. omega arith;
  fits = count_fits;
  fills = count_fills;
  adds = count_adds;
}

pub sha256-IsCounting : IsCounting sha256
sha256-IsCounting = record {
  below = λ b. omega arith;
  fits = count_fits;
  fills = count_fills;
  adds = count_adds;
}

-- `sha256_Update` by a string is the same as two updates by the parts of it, for every context and
-- every cut: state, bit count and buffer agree.
pub sha256_update-append :
    (c : Context ℕ) (xs ys : List ℕ)
    → sha256_update c (xs ++ ys) ≡ sha256_update (sha256_update c xs) ys
unfolding sha256_update
sha256_update-append c xs ys = update-append sha256 sha256-IsCounting c xs ys

-- `sha1_Update` by a string is the same as two updates by the parts of it, for every context and
-- every cut: state, bit count and buffer agree.
pub sha1_update-append :
    (c : Context ℕ) (xs ys : List ℕ) → sha1_update c (xs ++ ys) ≡ sha1_update (sha1_update c xs) ys
unfolding sha1_update
sha1_update-append c xs ys = update-append sha1 sha1-IsCounting c xs ys
