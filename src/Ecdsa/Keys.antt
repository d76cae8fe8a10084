-- ===== src/Ecdsa/Keys.antt =====
-- Public keys: reading, validation, compression, and the keys of a private key.
pub mod Validation
pub mod RoundTrip
use aex_cpp_sdk.Base.{
  ℕ, ◌+◌, List, [], ◌∷◌, ◌++◌, Bool, true, false, ◌||◌, not, ◌==◌, if◌then◌else◌, drop, get_or,
}
use aex_cpp_sdk.Base.{Option, none, some, bit_and, bit_or}
use aex_cpp_sdk.Bignum.Bytes.{bn_read_be, bn_write_be}
use aex_cpp_sdk.Bignum.Compare.{bn_is_less, bn_is_equal}
use aex_cpp_sdk.Bignum.Arith.{bn_add, bn_subi, bn_subtract}
use aex_cpp_sdk.Bignum.Reduce.{bn_mod, bn_addmod}
use aex_cpp_sdk.Bignum.Multiply.{bn_multiply}
use aex_cpp_sdk.Bignum.Power.{bn_sqrt}
use aex_cpp_sdk.Ecdsa.Curve.{Point, Curve, secp256k1}
use aex_cpp_sdk.Ecdsa.Point.{point_is_infinity}
use aex_cpp_sdk.Ecdsa.Jacobian.{Random, ◌>>=◌, pure}
use aex_cpp_sdk.Ecdsa.Scalar.{point_multiply, scalar_multiply}

-- `uncompress_coords`: the `y` whose lowest bit is that of `odd`.
unfoldable pub uncompress_coords : Curve → ℕ → List ℕ → List ℕ
uncompress_coords curve odd x =
    let prime = curve.prime in
    let slope = bn_subi (bn_multiply x x prime) curve.minus_a prime in
    let y = bn_sqrt (bn_add (bn_multiply x slope prime) curve.b) prime in
    if bit_and odd 0x01 == bit_and (get_or y 0 0) 1 then y else bn_subtract prime y

-- The two sides of the curve's equation in `ecdsa_validate_pubkey`.
unfoldable pub square_side : Curve → Point → List ℕ
square_side curve pub_point = bn_mod (bn_multiply pub_point.y pub_point.y curve.prime) curve.prime

unfoldable pub cubic_side : Curve → Point → List ℕ
cubic_side curve pub_point =
    let prime = curve.prime in
    let slope = bn_subi (bn_multiply pub_point.x pub_point.x prime) curve.minus_a prime in
    bn_mod (bn_addmod (bn_multiply pub_point.x slope prime) curve.b prime) prime

-- `ecdsa_validate_pubkey`.
unfoldable pub ecdsa_validate_pubkey : Curve → Point → Bool
ecdsa_validate_pubkey curve pub_point =
    if point_is_infinity pub_point
    then false
    else if not (bn_is_less pub_point.x curve.prime) || not (bn_is_less pub_point.y curve.prime)
    then false
    else bn_is_equal (cubic_side curve pub_point) (square_side curve pub_point)

-- The result 1 with the point, or the result 0.
unfoldable pub validated : Curve → Point → Option Point
validated curve pub_point = if ecdsa_validate_pubkey curve pub_point then some pub_point else none

-- `ecdsa_read_pubkey` for a curve that is not null.
unfoldable pub read_point : Curve → List ℕ → Option Point
read_point curve pub_key =
    let first = get_or pub_key 0 0 in
    let x = bn_read_be (drop 1 pub_key) in
    let y = bn_read_be (drop 33 pub_key) in
    if first == 0x04
    then validated curve (record { x = x; y = y })
    else if (first == 0x02) || (first == 0x03)
    then validated curve (record { x = x; y = uncompress_coords curve first x })
    else none

-- `ecdsa_read_pubkey`: secp256k1, with its table, replaces a null curve.
unfoldable pub ecdsa_read_pubkey : (ℕ → ℕ → Point) → Option Curve → List ℕ → Option Point
ecdsa_read_pubkey table none pub_key = read_point (secp256k1 table) pub_key
ecdsa_read_pubkey table (some curve) pub_key = read_point curve pub_key

-- The 65 bytes of an uncompressed key.
unfoldable pub uncompressed_bytes : Point → List ℕ
uncompressed_bytes p = 0x04 ∷ (bn_write_be p.x ++ bn_write_be p.y)

-- `ecdsa_uncompress_pubkey`.
unfoldable pub ecdsa_uncompress_pubkey : Curve → List ℕ → Option (List ℕ)
ecdsa_uncompress_pubkey curve pub_key = elim (read_point curve pub_key) [
  | none ↦ none
  | some p ↦ some (uncompressed_bytes p)
]

-- `ecdsa_get_public_key33` and `ecdsa_get_public_key65`.
unfoldable pub ecdsa_get_public_key33 : Curve → List ℕ → Random (List ℕ)
ecdsa_get_public_key33 curve priv_key = do
  r ← scalar_multiply curve (bn_read_be priv_key)
  pure (bit_or 0x02 (bit_and (get_or r.y 0 0) 0x01) ∷ bn_write_be r.x)

unfoldable pub ecdsa_get_public_key65 : Curve → List ℕ → Random (List ℕ)
ecdsa_get_public_key65 curve priv_key = do
  r ← scalar_multiply curve (bn_read_be priv_key)
  pure (uncompressed_bytes r)

-- `ecdh_multiply`: the session key, or `none` for the result 1.
unfoldable pub ecdh_multiply : Curve → List ℕ → List ℕ → Random (Option (List ℕ))
ecdh_multiply curve priv_key pub_key = elim (read_point curve pub_key) [
  | none ↦ pure none
  | some p ↦
      point_multiply curve (bn_read_be priv_key) p >>= λ q. pure (some (uncompressed_bytes q))
]
