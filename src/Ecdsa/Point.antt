-- ===== src/Ecdsa/Point.antt =====
-- The operations on points in affine coordinates.
pub mod Invariant
use aex_cpp_sdk.Base.{ℕ, List, Bool, true, false, ◌&&◌, not, if◌then◌else◌}
use aex_cpp_sdk.Bignum.Compare.{bn_zero, bn_is_zero, bn_is_equal}
use aex_cpp_sdk.Bignum.Shift.{bn_lshift}
use aex_cpp_sdk.Bignum.Arith.{bn_subi, bn_subtractmod}
use aex_cpp_sdk.Bignum.Reduce.{bn_fast_mod, bn_mod, bn_addmod, bn_mult_k}
use aex_cpp_sdk.Bignum.Multiply.{bn_multiply}
use aex_cpp_sdk.Bignum.Power.{bn_inverse}
use aex_cpp_sdk.Ecdsa.Curve.{Point, Curve}

-- `point_copy`: the new value of `cp2`.
unfoldable pub point_copy : Point → Point
point_copy cp1 = record { x = cp1.x; y = cp1.y }

-- `point_set_infinity`, `point_is_infinity`, `point_is_equal` and `point_is_negative_of`.
unfoldable pub infinity : Point
infinity = record { x = bn_zero; y = bn_zero }

unfoldable pub point_is_infinity : Point → Bool
point_is_infinity p = bn_is_zero p.x && bn_is_zero p.y

unfoldable pub point_is_equal : Point → Point → Bool
point_is_equal p q = bn_is_equal p.x q.x && bn_is_equal p.y q.y

unfoldable pub point_is_negative_of : Point → Point → Bool
point_is_negative_of p q =
    if not (bn_is_equal p.x q.x)
    then false
    else if bn_is_zero p.y
    then false
    else not (bn_is_equal p.y q.y)

-- `xr = lambda^2 - sub` and `yr = lambda (x - xr) - y`, the end of `point_add` and `point_double`.
unfoldable pub chord : List ℕ → List ℕ → List ℕ → List ℕ → List ℕ → Point
chord prime lambda sub x y =
    let square = bn_multiply lambda lambda prime in
    let xr = bn_mod (bn_fast_mod (bn_subtractmod square sub prime) prime) prime in
    let rise = bn_multiply lambda (bn_subtractmod x xr prime) prime in
    let yr = bn_mod (bn_fast_mod (bn_subtractmod rise y prime) prime) prime in
    record { x = xr; y = yr }

-- `point_double`.
unfoldable pub point_double : Curve → Point → Point
point_double curve cp =
    let prime = curve.prime in
    let inv = bn_inverse (bn_mult_k cp.y 2 prime) prime in
    let slope = bn_subi (bn_mult_k (bn_multiply cp.x cp.x prime) 3 prime) curve.minus_a prime in
    let lambda = bn_multiply slope inv prime in
    if point_is_infinity cp
    then cp
    else if bn_is_zero cp.y
    then infinity
    else chord prime lambda (bn_lshift cp.x) cp.x cp.y

-- `point_add`: the new value of `cp2`.
unfoldable pub point_add : Curve → Point → Point → Point
point_add curve cp1 cp2 =
    let prime = curve.prime in
    let inv = bn_inverse (bn_subtractmod cp2.x cp1.x prime) prime in
    let lambda = bn_multiply inv (bn_subtractmod cp2.y cp1.y prime) prime in
    if point_is_infinity cp1
    then cp2
    else if point_is_infinity cp2
    then cp1
    else if point_is_equal cp1 cp2
    then point_double curve cp2
    else if point_is_negative_of cp1 cp2
    then infinity
    else chord prime lambda (bn_addmod cp1.x cp2.x prime) cp1.x cp1.y
