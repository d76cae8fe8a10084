-- ===== src/Sha2/Unrolled.antt =====
-- The transforms of src/crypto/sha2.c that are compiled if `SHA2_UNROLL_TRANSFORM` is defined.
pub mod Sha1
pub mod Sha256
pub mod Sha512
