-- ===== src/Hasher.antt =====
-- src/crypto/hasher.c: one interface to SHA-256, SHA-256 of SHA-256, and RIPEMD-160 of SHA-256.
pub mod Bytes
pub mod Pieces
use aex_cpp_sdk.Base.{ℕ, List, ◌++◌, drop}
use aex_cpp_sdk.Sha2.Frame.{Context}
use aex_cpp_sdk.Sha2.Digest.{sha256_init, sha256_update, sha256_final}
use aex_cpp_sdk.Ripemd160.{ripemd160}

-- `HasherType`.
pub data HasherType : Type 0 where
  hasher_sha2 : HasherType
  hasher_sha2d : HasherType
  hasher_sha2_ripemd : HasherType

-- `Hasher`: every type uses the context of SHA-256.
pub record Hasher : Type 0 where
  pub type : HasherType
  pub ctx : Context ℕ

-- `hasher_Init`, `hasher_Reset` and `hasher_Update`.
unfoldable pub hasher_init : HasherType → Hasher
hasher_init type = record { type = type; ctx = sha256_init }

unfoldable pub hasher_reset : Hasher → Hasher
hasher_reset hasher = hasher_init hasher.type

unfoldable pub hasher_update : Hasher → List ℕ → Hasher
hasher_update hasher input = record { type = hasher.type; ctx = sha256_update hasher.ctx input }

-- What `hasher_Final` does with the SHA-256 digest in `hash`. RIPEMD-160 writes 20 of its 32 bytes. The
-- call of `hasher_Raw` for `HASHER_SHA2` is written out.
unfoldable pub finish : HasherType → List ℕ → List ℕ
finish hasher_sha2 hash = hash
finish hasher_sha2d hash = sha256_final (sha256_update sha256_init hash)
finish hasher_sha2_ripemd hash = ripemd160 hash ++ drop 20 hash

-- `hasher_Final`.
unfoldable pub hasher_final : Hasher → List ℕ
hasher_final hasher = finish hasher.type (sha256_final hasher.ctx)

-- `hasher_Raw`.
unfoldable pub hasher_raw : HasherType → List ℕ → List ℕ
hasher_raw type input = hasher_final (hasher_update (hasher_init type) input)
