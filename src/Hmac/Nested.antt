-- ===== src/Hmac/Nested.antt =====
-- HMAC as two nested digests, the form in which RFC 2104 states it.
use aex_cpp_sdk.Base.{ℕ, List, ◌++◌, map, ◌≡◌, sym, ap, ◌∙◌, bit_xor}
use aex_cpp_sdk.Sha2.Digest.{sha256_init, sha256_update, sha256_final, sha256_raw}
use aex_cpp_sdk.Sha2.Digest.Pieces.{sha256_update-append}
use aex_cpp_sdk.Hmac.{hmac_sha256, hmac_sha256_init, hmac_sha256_update, hmac_sha256_final}
use aex_cpp_sdk.Hmac.{key_block256}

-- A digest of two pieces, one after the other.
two_updates :
    (xs ys : List ℕ)
    → sha256_final (sha256_update (sha256_update sha256_init xs) ys) ≡ sha256_raw (xs ++ ys)
unfolding sha256_raw
two_updates xs ys = ap sha256_final (sym (sha256_update-append sha256_init xs ys))

-- `hmac_sha256` of a key and a message is the SHA-256 digest of the outer pad and the digest of
-- the inner pad and the message, where the pads are the key block (the key, or the digest of a key
-- longer than 64 bytes, filled up with zeros) combined by exclusive or with 0x5c and 0x36.
pub hmac_sha256_lem :
    (key msg : List ℕ)
    → hmac_sha256 key msg
      ≡ sha256_raw (
          map (λ b. bit_xor b 0x5c) (key_block256 key)
          ++ sha256_raw (map (λ b. bit_xor b 0x36) (key_block256 key) ++ msg))
unfolding hmac_sha256 hmac_sha256_init hmac_sha256_update hmac_sha256_final
hmac_sha256_lem key msg =
    let outer = map (λ b. bit_xor b 0x5c) (key_block256 key) in
    let inner = map (λ b. bit_xor b 0x36) (key_block256 key) in
    ap (λ (d : List ℕ). sha256_final (sha256_update (sha256_update sha256_init outer) d))
      (two_updates inner msg)
    ∙ two_updates outer (sha256_raw (inner ++ msg))
