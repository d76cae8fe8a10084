-- ===== src/Ecdsa/Keys/RoundTrip.antt =====
-- Reading a key that `ecdsa_uncompress_pubkey` wrote.
use aex_cpp_sdk.Base.{ℕ, ◌≡◌, refl, ap, ◌∙◌, arith, List, ◌++◌, drop, true, some}
use aex_cpp_sdk.Bignum.Value.{IsBignum}
use aex_cpp_sdk.Bignum.Bytes.{
  write_be, write_loop, words_be, bn_write_be, bn_read_be, read_be, read_loop,
}
use aex_cpp_sdk.Bignum.Bytes.Write.{bn_read_be-bn_write_be}
use aex_cpp_sdk.Ecdsa.Curve.{Point, Curve}
use aex_cpp_sdk.Ecdsa.Curve.Field.{IsField}
use aex_cpp_sdk.Ecdsa.Keys.{ecdsa_validate_pubkey, validated, read_point, uncompressed_bytes}
use aex_cpp_sdk.Ecdsa.Keys.Validation.{IsKey, ecdsa_validate_pubkey_lem}

-- `bn_read_be` reads 32 bytes.
pub read_first :
    (a : List ℕ) (rest : List ℕ) → bn_read_be (bn_write_be a ++ rest) ≡ bn_read_be (bn_write_be a)
unfolding bn_write_be words_be write_loop write_be bn_read_be read_loop read_be
read_first a rest = refl

pub drop_first : (a : List ℕ) (rest : List ℕ) → drop 32 (bn_write_be a ++ rest) ≡ rest
unfolding bn_write_be words_be write_loop write_be
drop_first a rest = refl

-- `ecdsa_read_pubkey`, with a curve that is not null, gives back the point from the 65 bytes of
-- its uncompressed key, for a point of the curve with normalized and reduced coordinates that are
-- not both zero, on a curve that meets `IsField` (an odd normalized prime between `2^256 - 2^224`
-- and `2^256`, whose lowest limb is at least 2 and at least `-a`, `-a` at most 3, and a normalized
-- `b`).
pub read_point-uncompressed_bytes :
    (curve : Curve) (p : Point)
    → IsField curve
    → IsBignum p.x
    → IsBignum p.y
    → IsKey curve p
    → read_point curve (uncompressed_bytes p) ≡ some p
unfolding read_point uncompressed_bytes validated
read_point-uncompressed_bytes curve p f px py key =
    let x : bn_read_be (bn_write_be p.x ++ bn_write_be p.y) ≡ p.x =
      read_first p.x (bn_write_be p.y)
      ∙ bn_read_be-bn_write_be p.x px (omega (arith, key.x_reduced, f.prime.below)) in
    let y : bn_read_be (drop 32 (bn_write_be p.x ++ bn_write_be p.y)) ≡ p.y =
      ap bn_read_be (drop_first p.x (bn_write_be p.y))
      ∙ bn_read_be-bn_write_be p.y py (omega (arith, key.y_reduced, f.prime.below)) in
    let valid : ecdsa_validate_pubkey curve p ≡ true =
      (ecdsa_validate_pubkey_lem curve f p px py).1 key in
    rw x (rw y (rw valid refl))
