-- ===== src/Tests/Points.antt =====
-- The theorems on the curve at secp256k1.
use aex_cpp_sdk.Base.{ℕ, ◌≤◌, ◌≡◌, ◌↔◌, refl, arith, List, [], ◌∷◌, ◌++◌, true, none, some}
use aex_cpp_sdk.Base.{length, replicate, take, drop}
use aex_cpp_sdk.Bignum.Value.{IsBignum}
use aex_cpp_sdk.Bignum.Reduce.FastMod.{IsPrimeSize}
use aex_cpp_sdk.Ecdsa.Curve.{Point, Curve, secp256k1}
use aex_cpp_sdk.Ecdsa.Curve.Field.{IsField, IsPoint}
use aex_cpp_sdk.Ecdsa.Point.{point_add}
use aex_cpp_sdk.Ecdsa.Point.Invariant.{point_add-IsPoint}
use aex_cpp_sdk.Ecdsa.Jacobian.{Jacobian, point_jacobian_add}
use aex_cpp_sdk.Ecdsa.Jacobian.Invariant.{IsJacobian, point_jacobian_add-IsJacobian}
use aex_cpp_sdk.Ecdsa.Jacobian.Results.{Always}
use aex_cpp_sdk.Ecdsa.Scalar.{point_multiply, scalar_multiply}
use aex_cpp_sdk.Ecdsa.Scalar.Invariant.{IsTable, scalar_multiply-IsPoint, point_multiply-IsPoint}
use aex_cpp_sdk.Ecdsa.Keys.{ecdsa_validate_pubkey, read_point, uncompressed_bytes}
use aex_cpp_sdk.Ecdsa.Keys.Validation.{IsKey, ecdsa_validate_pubkey_lem}
use aex_cpp_sdk.Ecdsa.Keys.RoundTrip.{read_point-uncompressed_bytes}
use aex_cpp_sdk.Ecdsa.Signature.{ecdsa_verify_digest, ecdsa_sign_digest}
use aex_cpp_sdk.Ecdsa.Signature.Verification.{Verdict, ecdsa_verify_digest_lem}
use aex_cpp_sdk.Ecdsa.Signature.Signing.{IsOrder, Low, ecdsa_sign_digest-Low}
use aex_cpp_sdk.Ecdsa.Der.{ecdsa_sig_to_der}
use aex_cpp_sdk.Ecdsa.Der.Decode.{big_endian, read_signature, ecdsa_sig_to_der_lem}

abbrev pub generator : Point
generator = record {
  x =
      0x16f81798 ∷ 0x27ca056c ∷ 0x1ce28d95 ∷ 0x26ff36cb ∷ 0x70b0702 ∷ 0x18a573a ∷ 0xbbac55a
      ∷ 0x199fbe77 ∷ 0x79be ∷ [];
  y =
      0x3b10d4b8 ∷ 0x311f423f ∷ 0x28554199 ∷ 0x5ed1229 ∷ 0x1108a8fd ∷ 0x13eff038 ∷ 0x3c4655da
      ∷ 0x369dc9a8 ∷ 0x483a ∷ [];
}

abbrev twice : Point
twice = record {
  x =
      0x1c709ee5 ∷ 0x2eb026e5 ∷ 0xef3ca7a ∷ 0x1de392e3 ∷ 0x7cd85c ∷ 0x1501ba57 ∷ 0x17d6d304
      ∷ 0x1fe5107b ∷ 0xc604 ∷ [];
  y =
      0x10cfe52a ∷ 0xd90c6a5 ∷ 0x266d0e12 ∷ 0x3d8c994c ∷ 0x2ceaeef7 ∷ 0x16106519 ∷ 0x1c339a3c
      ∷ 0x1a3fa98f ∷ 0x1ae1 ∷ [];
}

-- A number, and words of which the second group is suitable: the first is zero.
abbrev small_scalar : List ℕ
small_scalar = 5 ∷ replicate 8 0

abbrev suitable_words : List ℕ
suitable_words = replicate 9 0 ++ (7 ∷ replicate 8 0)

-- A table of the generator only.
abbrev pub curve : Curve
curve = record {
  prime =
      0x3ffffc2f ∷ 0x3ffffffb ∷ 0x3fffffff ∷ 0x3fffffff ∷ 0x3fffffff ∷ 0x3fffffff ∷ 0x3fffffff
      ∷ 0x3fffffff ∷ 0xffff ∷ [];
  generator = generator;
  order =
      0x10364141 ∷ 0x3f497a33 ∷ 0x348a03bb ∷ 0x2bb739ab ∷ 0x3ffffeba ∷ 0x3fffffff ∷ 0x3fffffff
      ∷ 0x3fffffff ∷ 0xffff ∷ [];
  order_half =
      0x281b20a0 ∷ 0x3fa4bd19 ∷ 0x3a4501dd ∷ 0x15db9cd5 ∷ 0x3fffff5d ∷ 0x3fffffff ∷ 0x3fffffff
      ∷ 0x3fffffff ∷ 0x7fff ∷ [];
  minus_a = 0;
  b = 0x7 ∷ 0x0 ∷ 0x0 ∷ 0x0 ∷ 0x0 ∷ 0x0 ∷ 0x0 ∷ 0x0 ∷ 0x0 ∷ [];
  cp = λ i j. generator;
}

same_curve : secp256k1 (λ i j. generator) ≡ curve
unfolding secp256k1
same_curve = refl

prime-IsPrimeSize : IsPrimeSize curve.prime
prime-IsPrimeSize = record {
  bignum = record { limbs = refl; normal = omega arith };
  above = omega arith;
  below = omega arith;
}

pub curve-IsField : IsField curve
curve-IsField = record {
  prime = prime-IsPrimeSize;
  odd = omega arith;
  low = omega arith;
  coefficient = omega arith;
  small = omega arith;
  b = record { limbs = refl; normal = omega arith };
}

order-IsBignum : IsBignum curve.order
order-IsBignum = record { limbs = refl; normal = omega arith }

pub curve-IsOrder : IsOrder curve
curve-IsOrder = record {
  order = record { bignum = order-IsBignum; above = omega arith; below = omega arith };
  low = omega arith;
  half = record { limbs = refl; normal = omega arith };
  odd = omega arith;
}

generator-IsPoint : IsPoint curve generator
generator-IsPoint = record {
  x = record { bignum = record { limbs = refl; normal = omega arith }; less = omega arith };
  y = record { bignum = record { limbs = refl; normal = omega arith }; less = omega arith };
}

twice-IsPoint : IsPoint curve twice
twice-IsPoint = record {
  x = record { bignum = record { limbs = refl; normal = omega arith }; less = omega arith };
  y = record { bignum = record { limbs = refl; normal = omega arith }; less = omega arith };
}

abbrev projective : Jacobian
projective = record { x = generator.x; y = generator.y; z = 1 ∷ replicate 8 0 }

projective-IsJacobian : IsJacobian curve projective
projective-IsJacobian = record {
  x = record { bignum = record { limbs = refl; normal = omega arith }; bound = omega arith };
  y = record { bignum = record { limbs = refl; normal = omega arith }; bound = omega arith };
  z = record { bignum = record { limbs = refl; normal = omega arith }; bound = omega arith };
}

pub curve-IsTable : IsTable curve curve-IsField
curve-IsTable i j = generator-IsPoint

generator-IsKey : IsKey curve generator
generator-IsKey = record {
  finite = omega arith;
  x_reduced = omega arith;
  y_reduced = omega arith;
  on_curve = refl;
}

ecdsa_validate_pubkey_lem_example :
    (ecdsa_validate_pubkey curve generator ≡ true) ↔ IsKey curve generator
ecdsa_validate_pubkey_lem_example =
    ecdsa_validate_pubkey_lem curve curve-IsField generator generator-IsPoint.x.bignum
      generator-IsPoint.y.bignum

read_point-uncompressed_bytes_example :
    read_point curve (uncompressed_bytes generator) ≡ some generator
read_point-uncompressed_bytes_example =
    read_point-uncompressed_bytes curve generator curve-IsField generator-IsPoint.x.bignum
      generator-IsPoint.y.bignum generator-IsKey

point_jacobian_add-IsJacobian_example : IsJacobian curve (point_jacobian_add twice projective curve)
point_jacobian_add-IsJacobian_example =
    point_jacobian_add-IsJacobian curve curve-IsField twice projective twice-IsPoint
      projective-IsJacobian

point_add-IsPoint_example : IsPoint curve (point_add curve generator twice)
point_add-IsPoint_example =
    point_add-IsPoint curve curve-IsField generator twice generator-IsPoint twice-IsPoint

scalar_multiply-IsPoint_example : Always (IsPoint curve) (scalar_multiply curve generator.x)
scalar_multiply-IsPoint_example =
    scalar_multiply-IsPoint curve curve-IsField generator.x curve-IsTable

point_multiply-IsPoint_example : Always (IsPoint curve) (point_multiply curve generator.x twice)
point_multiply-IsPoint_example =
    point_multiply-IsPoint curve curve-IsField generator.x twice generator-IsPoint.x.bignum
      order-IsBignum (omega arith) (omega arith) (omega arith) twice-IsPoint

ecdsa_sign_digest-Low_example :
    Always (Low curve) (ecdsa_sign_digest curve none (replicate 32 1) (replicate 32 2))
ecdsa_sign_digest-Low_example =
    ecdsa_sign_digest-Low curve none (replicate 32 1) (replicate 32 2) curve-IsField curve-IsOrder
      curve-IsTable (omega arith) (omega arith)

ecdsa_verify_digest_lem_example :
    Always
      (Verdict curve (2 ∷ replicate 32 1) (replicate 64 3))
      (ecdsa_verify_digest curve (2 ∷ replicate 32 1) (replicate 64 3) (replicate 32 2))
ecdsa_verify_digest_lem_example =
    ecdsa_verify_digest_lem curve (2 ∷ replicate 32 1) (replicate 64 3) (replicate 32 2)
      order-IsBignum (omega arith)

abbrev signature : List ℕ
signature = 0 ∷ (replicate 31 0x7f ++ replicate 32 0x80)

ecdsa_sig_to_der_lem_example :
    (read_signature (ecdsa_sig_to_der signature).0
      ≡ some (big_endian (take 32 signature), big_endian (take 32 (drop 32 signature))))
    × ((ecdsa_sig_to_der signature).1 ≡ length (ecdsa_sig_to_der signature).0)
    × ((ecdsa_sig_to_der signature).1 ≤ 72)
ecdsa_sig_to_der_lem_example =
    ecdsa_sig_to_der_lem signature (omega arith) (omega arith) (omega arith) (omega arith)
