-- ===== src/Ecdsa/Curve/Field.antt =====
-- Curves and points whose numbers the operations can take.
use aex_cpp_sdk.Base.{◌%◌, ◌≤◌, ◌≡◌, get_or}
use aex_cpp_sdk.Bignum.Value.{value, IsBignum}
use aex_cpp_sdk.Bignum.Reduce.FastMod.{IsPrimeSize}
use aex_cpp_sdk.Bignum.Value.{Reduced}
use aex_cpp_sdk.Ecdsa.Curve.{Point, Curve}

pub record IsField (curve : Curve) : Type 0 where
  pub prime : IsPrimeSize curve.prime
  pub odd : value curve.prime % 2 ≡ 1
  pub low : 2 ≤ get_or curve.prime 0 0
  pub coefficient : curve.minus_a ≤ get_or curve.prime 0 0
  pub small : curve.minus_a ≤ 3
  pub b : IsBignum curve.b

-- Coordinates that are less than the prime.
pub record IsPoint (curve : Curve) (p : Point) : Type 0 where
  pub x : Reduced curve.prime p.x
  pub y : Reduced curve.prime p.y
