-- ===== src/Ecdsa.antt =====
-- src/crypto/ecdsa.c: curve points, scalar multiplication, keys and signatures over the 256-bit numbers
-- of src/crypto/bignum.c.
pub mod Curve
pub mod Point
pub mod Jacobian
pub mod Scalar
pub mod Keys
pub mod Deterministic
pub mod Signature
pub mod Der
pub mod Message
