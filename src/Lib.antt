-- ===== src/Lib.antt =====
-- A model of aex.cppSDK, an SDK for Binance Chain: the signing of orders, addresses and their Bech32 text,
-- and the number library and hash functions that the signatures rest on.
--
-- The parts of the program. `Address` (src/Address.h, src/Address.cpp) turns a key hash into text and back;
-- it calls `convertBits` to regroup bytes into digits of 5 bits and `Bech32` (src/Bech32.h, src/Bech32.cpp)
-- to write digits with a checksum. A `Signer` (src/Signer.h, src/Signer.cpp) makes the JSON text of an order
-- (src/Serialization.cpp), signs the SHA-256 hash of the text, and builds a transaction from the signature,
-- the public key and the serialized order. It signs with the ECDSA of src/crypto/ecdsa.c, which computes on the 256-bit numbers of src/crypto/bignum.c, takes its nonces
-- from src/crypto/hmac.c, and hashes messages and keys through src/crypto/hasher.c, that is with src/crypto/sha2.c
-- and src/crypto/ripemd160.c.
--
-- The files.
--   Messages: the messages of src/dex.proto, `Signer` and its constructor. Serialization: src/Serialization.cpp.
--     Signer: src/Signer.cpp. The modules below them hold the theorems, and Serialization/Objects and Reading a
--     reader of the JSON values that are made.
--   Base, Base/*: Boolean tests, C arrays as lists, machine words, and laws of the bit operations.
--   Bech32/Charset: the two tables of src/Bech32.cpp and `lc`.
--   Bech32/Checksum: `polymod`, `expand_hrp`, `verify_checksum`, `create_checksum`. Linear and Verify below
--     it hold the algebra of the polynomial.
--   Bech32/Codec: `Bech32::encode` and `Bech32::decode`; a failed decoding is the pair of empty lists.
--   Bech32/ConvertBits: the template `convertBits`, the locals as a record. Stream and Loop below it view
--     digits as a stream of bits.
--   Address: `Address::isValid`, `Address::decode`, `Address::encode`.
--   Bignum/Value: the number that limbs stand for, and the normalized numbers (`IsBignum`).
--   Bignum/Bytes, Compare, Shift, Arith, Reduce, Multiply, Power, Decimal: src/crypto/bignum.c and the inline
--     functions of src/crypto/bignum.h under their own names. The loops of the source are functions by recursion
--     on the limbs or on the rounds that are left.
--   Bignum/Format: `bn_format`, the two macros as steps of the locals. The modules below it hold the readings
--     of its text.
--   Rand: src/crypto/rand.cpp and src/crypto/memzero.c.
--   Sha2/Unrolled/*: the transforms that are compiled with `SHA2_UNROLL_TRANSFORM`.
--   Sha2/Logic, Sha1, Sha256, Sha512: the logical functions and the transforms of src/crypto/sha2.c.
--   Sha2/Frame: `Init`, `Update`, `Final` for a word size, a transform and a bit counter; Sha2/Digest: the
--     functions of SHA-1, SHA-256 and SHA-512, with a context as a record whose buffer is kept as its bytes.
--     Absorb and Padding below Frame describe a digest without the buffer and the counter.
--   Hmac: src/crypto/hmac.c on the functions of Sha2/Digest.
--   HexCoding: `hex` and `parse_hex` of src/HexCoding.h and src/HexCoding.cpp.
--   Prefix: src/crypto/address.c.
--   Ripemd160: src/crypto/ripemd160.c; Process holds the compression of a block, with the 80 lines of the source
--     as tables of their numbers.
--   Hasher: src/crypto/hasher.c. Pieces below it describes its digests.
--   Ecdsa/Curve, Point, Jacobian, Scalar: the curve of src/crypto/ecdsa.h and src/crypto/secp256k1.c, the points of
--     src/crypto/ecdsa.c and the two scalar multiplications. Ecdsa/Keys, Deterministic, Signature, Der, Message: keys,
--     the random numbers of RFC 6979, signing, verification and recovery, DER, and the functions that hash.
--     The modules below them hold the theorems.
--   Tests/*: runs of the definitions, and each theorem at a concrete input.
--
-- How the code is represented. A byte string or an array is a list of natural numbers, and text is the
-- list of its character codes. Arithmetic in a machine type is reduced modulo 2^8, 2^32 or 2^64 where it
-- can leave its range; where C adds and subtracts in an unsigned type, 2^32 or 2^64 is added before a
-- difference. A function that writes through a pointer returns what it writes. The machine is little-endian,
-- `int` has 32 bits, `long` and `size_t` have 64.
--
-- Random numbers. A function that calls `random32` takes the list of the words that are to come and
-- gives the words that are left (`Random`); no result means that the words end before a suitable number is
-- found, where the code would go on. The theorems hold for all words. The table of multiples of the
-- generator in src/crypto/secp256k1.table is a parameter (`cp`).
--
-- Fuel. `push_loop` (the `while` of `convertBits`) is given as many rounds as there are bits, and a round
-- takes off at least one. `blocks` (the `while` of the `Update` functions) is given the number of complete
-- blocks, and `whole_blocks` (the same of RIPEMD-160) likewise. `ecdsa_sign_digest` itself gives up after
-- 10000 rounds. The other loops have a fixed number of rounds or one for each element.
--
-- The last loop of `bn_format` is given `rounds`: one for each place of the exponent below zero and for each
-- decimal, and one more.
--
-- Third-party code is a parameter: `JsonLibrary` is nlohmann::json, with a type of values and the operations
-- that are called; `Protobuf` is `SerializeAsString` of the generated classes and `WriteVarint64`; `Pcg` is
-- the generator of src/crypto/rand.cpp. A message behind a reference to the base class is a data type with a
-- case for each type name that the code compares. An exception is a result (`Outcome`).
--
-- Not modelled: the inside of the protobuf and JSON libraries; the clearing of memory in the other functions,
-- which has no effect on a result; the tests for null pointers in src/crypto/sha2.c, which leave everything as
-- it is; the `assert`s, which are conditions of the theorems where they are needed; `bn_format` into a buffer
-- that has no space for the prefix and the suffix, where the code writes outside of it.
pub mod Base
pub mod Bech32
pub mod Address
pub mod Bignum
pub mod Serialization
pub mod Sha2
pub mod Signer
pub mod Hmac
pub mod HexCoding
pub mod Messages
pub mod Prefix
pub mod Rand
pub mod Ripemd160
pub mod Hasher
pub mod Ecdsa
mod Tests
