-- ===== src/Hmac.antt =====
-- src/crypto/hmac.c: HMAC over SHA-256 and SHA-512.
pub mod Nested
use aex_cpp_sdk.Base.{ℕ, List, map, ltb, if◌then◌else◌, length, replicate, bit_xor}
use aex_cpp_sdk.Sha2.Logic.{reverse32, reverse64}
use aex_cpp_sdk.Sha2.Sha256
use aex_cpp_sdk.Sha2.Sha512
use aex_cpp_sdk.Sha2.Frame.{Context, copy_at, load_words}
use aex_cpp_sdk.Sha2.Digest.{sha256_init, sha256_update, sha256_final, sha256_raw}
use aex_cpp_sdk.Sha2.Digest.{Count128, sha512_init, sha512_update, sha512_final, sha512_raw}

-- `HMAC_SHA256_CTX` and `HMAC_SHA512_CTX`.
pub record HmacSha256 : Type 0 where
  pub o_key_pad : List ℕ
  pub ctx : Context ℕ

pub record HmacSha512 : Type 0 where
  pub o_key_pad : List ℕ
  pub ctx : Context Count128

-- The key, or the digest of a long one, filled up with zeros to a block.
unfoldable pub key_block256 : List ℕ → List ℕ
key_block256 key = copy_at 0 (if ltb 64 (length key) then sha256_raw key else key) (replicate 64 0)

unfoldable pub key_block512 : List ℕ → List ℕ
key_block512 key =
    copy_at 0 (if ltb 128 (length key) then sha512_raw key else key) (replicate 128 0)

-- `hmac_sha256_Init`, `hmac_sha256_Update` and `hmac_sha256_Final`.
unfoldable pub hmac_sha256_init : List ℕ → HmacSha256
hmac_sha256_init key = record {
  o_key_pad = map (λ b. bit_xor b 0x5c) (key_block256 key);
  ctx = sha256_update sha256_init (map (λ b. bit_xor b 0x36) (key_block256 key));
}

unfoldable pub hmac_sha256_update : HmacSha256 → List ℕ → HmacSha256
hmac_sha256_update hctx msg = record {
  o_key_pad = hctx.o_key_pad;
  ctx = sha256_update hctx.ctx msg;
}

unfoldable pub hmac_sha256_final : HmacSha256 → List ℕ
hmac_sha256_final hctx =
    let inner = sha256_final hctx.ctx in
    sha256_final (sha256_update (sha256_update sha256_init hctx.o_key_pad) inner)

-- `hmac_sha256`.
unfoldable pub hmac_sha256 : List ℕ → List ℕ → List ℕ
hmac_sha256 key msg = hmac_sha256_final (hmac_sha256_update (hmac_sha256_init key) msg)

-- The words of the key's block in host order.
unfoldable pub key_words256 : List ℕ → List ℕ
key_words256 key = map reverse32 (load_words 4 16 (key_block256 key))

-- `hmac_sha256_prepare`: `opad_digest` and `ipad_digest`.
unfoldable pub hmac_sha256_prepare : List ℕ → List ℕ × List ℕ
hmac_sha256_prepare key =
    let outer = map (λ w. bit_xor w 0x5c5c5c5c) (key_words256 key) in
    let inner = map (λ w. bit_xor (bit_xor w 0x5c5c5c5c) 0x36363636) outer in
    (
      Sha256.transform Sha256.sha256_initial_hash_value outer,
      Sha256.transform Sha256.sha256_initial_hash_value inner,
    )

-- The same of SHA-512.
unfoldable pub hmac_sha512_init : List ℕ → HmacSha512
hmac_sha512_init key = record {
  o_key_pad = map (λ b. bit_xor b 0x5c) (key_block512 key);
  ctx = sha512_update sha512_init (map (λ b. bit_xor b 0x36) (key_block512 key));
}

unfoldable pub hmac_sha512_update : HmacSha512 → List ℕ → HmacSha512
hmac_sha512_update hctx msg = record {
  o_key_pad = hctx.o_key_pad;
  ctx = sha512_update hctx.ctx msg;
}

unfoldable pub hmac_sha512_final : HmacSha512 → List ℕ
hmac_sha512_final hctx =
    let inner = sha512_final hctx.ctx in
    sha512_final (sha512_update (sha512_update sha512_init hctx.o_key_pad) inner)

unfoldable pub hmac_sha512 : List ℕ → List ℕ → List ℕ
hmac_sha512 key msg = hmac_sha512_final (hmac_sha512_update (hmac_sha512_init key) msg)

unfoldable pub key_words512 : List ℕ → List ℕ
key_words512 key = map reverse64 (load_words 8 16 (key_block512 key))

unfoldable pub hmac_sha512_prepare : List ℕ → List ℕ × List ℕ
hmac_sha512_prepare key =
    let outer = map (λ w. bit_xor w 0x5c5c5c5c5c5c5c5c) (key_words512 key) in
    let inner = map (λ w. bit_xor (bit_xor w 0x5c5c5c5c5c5c5c5c) 0x3636363636363636) outer in
    (
      Sha512.transform Sha512.sha512_initial_hash_value outer,
      Sha512.transform Sha512.sha512_initial_hash_value inner,
    )
