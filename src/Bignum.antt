-- ===== src/Bignum.antt =====
-- src/crypto/bignum.c and src/crypto/bignum.h: 256-bit numbers as nine limbs in base 2^30, the lowest
-- first. A `bignum256` is the list of its limbs; each limb is a `uint32_t`. An operation that writes
-- through a pointer returns the new limbs.
pub mod Multiples
pub mod Value
pub mod Bytes
pub mod Compare
pub mod Shift
pub mod Arith
pub mod Reduce
pub mod Multiply
pub mod Power
pub mod Decimal
pub mod Format
