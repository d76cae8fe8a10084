-- ===== src/Ecdsa/Deterministic/Bounds.antt =====
-- The random numbers of RFC 6979 are read from bytes.
use aex_cpp_sdk.Base.{ℕ, List, All, IsByte}
use aex_cpp_sdk.Bignum.Value.{IsBignum}
use aex_cpp_sdk.Bignum.Bytes.Bounds.{bn_read_be-bound}
use aex_cpp_sdk.Sha2.Frame.{final}
use aex_cpp_sdk.Sha2.Frame.Bytes.{store_words-IsByte}
use aex_cpp_sdk.Sha2.Digest.{sha256_final, sha256_raw}
use aex_cpp_sdk.Hmac.{hmac_sha256, hmac_sha256_final}
use aex_cpp_sdk.Ecdsa.Deterministic.{Rfc6979, generate_rfc6979, generate_k_rfc6979}

hmac_sha256-IsByte : (key msg : List ℕ) → All IsByte (hmac_sha256 key msg)
unfolding hmac_sha256 hmac_sha256_final sha256_final final
hmac_sha256-IsByte key msg = store_words-IsByte _ _

pub sha256_raw-IsByte : (input : List ℕ) → All IsByte (sha256_raw input)
unfolding sha256_raw sha256_final final
sha256_raw-IsByte input = store_words-IsByte _ _

pub generate_k_rfc6979-IsBignum : (rng : Rfc6979) → IsBignum (generate_k_rfc6979 rng).0
unfolding generate_k_rfc6979 generate_rfc6979
generate_k_rfc6979-IsBignum rng =
    (bn_read_be-bound (hmac_sha256 rng.k rng.v) (hmac_sha256-IsByte rng.k rng.v)).0
