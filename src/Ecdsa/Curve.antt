-- ===== src/Ecdsa/Curve.antt =====
-- `curve_point` and `ecdsa_curve` of src/crypto/ecdsa.h, and the curve of src/crypto/secp256k1.c.
pub mod Field
use aex_cpp_sdk.Base.{ℕ, List, [], ◌∷◌}

pub record Point : Type 0 where
  pub x : List ℕ
  pub y : List ℕ

-- `minus_a` is `-a`, for the coefficient `a` that is asserted to lie between -3 and 0. `cp i j` is the
-- entry `cp[i][j]` of the table of multiples of the generator.
pub record Curve : Type 0 where
  pub prime : List ℕ
  pub generator : Point
  pub order : List ℕ
  pub order_half : List ℕ
  pub minus_a : ℕ
  pub b : List ℕ
  pub cp : ℕ → ℕ → Point

-- `secp256k1`, for a table: the file src/crypto/secp256k1.table holds it.
unfoldable pub secp256k1 : (ℕ → ℕ → Point) → Curve
secp256k1 table = record {
  prime =
      0x3ffffc2f ∷ 0x3ffffffb ∷ 0x3fffffff ∷ 0x3fffffff ∷ 0x3fffffff ∷ 0x3fffffff ∷ 0x3fffffff
      ∷ 0x3fffffff ∷ 0xffff ∷ [];
  generator = record {
    x =
        0x16f81798 ∷ 0x27ca056c ∷ 0x1ce28d95 ∷ 0x26ff36cb ∷ 0x70b0702 ∷ 0x18a573a ∷ 0xbbac55a
        ∷ 0x199fbe77 ∷ 0x79be ∷ [];
    y =
        0x3b10d4b8 ∷ 0x311f423f ∷ 0x28554199 ∷ 0x5ed1229 ∷ 0x1108a8fd ∷ 0x13eff038 ∷ 0x3c4655da
        ∷ 0x369dc9a8 ∷ 0x483a ∷ [];
  };
  order =
      0x10364141 ∷ 0x3f497a33 ∷ 0x348a03bb ∷ 0x2bb739ab ∷ 0x3ffffeba ∷ 0x3fffffff ∷ 0x3fffffff
      ∷ 0x3fffffff ∷ 0xffff ∷ [];
  order_half =
      0x281b20a0 ∷ 0x3fa4bd19 ∷ 0x3a4501dd ∷ 0x15db9cd5 ∷ 0x3fffff5d ∷ 0x3fffffff ∷ 0x3fffffff
      ∷ 0x3fffffff ∷ 0x7fff ∷ [];
  minus_a = 0;
  b = 7 ∷ 0 ∷ 0 ∷ 0 ∷ 0 ∷ 0 ∷ 0 ∷ 0 ∷ 0 ∷ [];
  cp = table;
}
