-- ===== src/Sha2.antt =====
-- src/crypto/sha2.c and src/crypto/sha2.h: SHA-1, SHA-256 and SHA-512, in the rolled form that is compiled
-- unless `SHA2_UNROLL_TRANSFORM` is defined, on a little-endian machine.
pub mod Logic
pub mod Sha256
pub mod Sha1
pub mod Sha512
pub mod Frame
pub mod Digest
pub mod Unrolled
