-- ===== src/Ecdsa/Jacobian/Invariant.antt =====
-- The operations on Jacobian coordinates keep them at most twice the prime.
use aex_cpp_sdk.Base.{ℕ, ◌≤◌, arith}
use aex_cpp_sdk.Base.{List, Bool, true, false, ◌==◌, if◌then◌else◌}
use aex_cpp_sdk.Bignum.Compare.{bn_is_equal}
use aex_cpp_sdk.Bignum.Arith.{bn_subtractmod}
use aex_cpp_sdk.Bignum.Reduce.FastMod.{IsPrimeSize}
use aex_cpp_sdk.Bignum.Multiples
use aex_cpp_sdk.Bignum.Value.{AtMost, Reduced→AtMost, weaken}
use aex_cpp_sdk.Ecdsa.Curve.{Point, Curve}
use aex_cpp_sdk.Ecdsa.Curve.Field.{IsField, IsPoint}
use aex_cpp_sdk.Bignum.Multiply.{bn_multiply}
use aex_cpp_sdk.Bignum.Reduce.{bn_fast_mod}
use aex_cpp_sdk.Ecdsa.Jacobian.{Jacobian, point_jacobian_add, point_jacobian_double}

pub record IsJacobian (curve : Curve) (p : Jacobian) : Type 0 where
  pub x : AtMost 2 curve.prime p.x
  pub y : AtMost 2 curve.prime p.y
  pub z : AtMost 2 curve.prime p.z

module _ (curve : Curve) (f : IsField curve) where
  abbrev prime : List ℕ
  prime = curve.prime

  abbrev v : IsPrimeSize prime
  v = f.prime

  -- Smaller bounds are bounds.
  wide2 : {a : List ℕ} → AtMost 2 prime a → AtMost 8 prime a
  wide2 p = weaken (omega arith) p

  wide4 : {a : List ℕ} → AtMost 4 prime a → AtMost 8 prime a
  wide4 p = weaken (omega arith) p

  difference6 :
      {a b : List ℕ}
      → AtMost 2 prime a
      → AtMost 2 prime b
      → AtMost 6 prime (bn_subtractmod a b prime)
  difference6 p q = weaken (omega arith) (Multiples.difference-AtMost prime v p q)

  -- The same choice as in the formulas.
  chosen :
      {m : ℕ} {a b : List ℕ} (c : Bool)
      → AtMost m prime a
      → AtMost m prime b
      → AtMost m prime (if c then a else b)
  chosen true p q = p
  chosen false p q = q

  -- Products of numbers of at most twice the prime, and of at most six or eight times.
  mul22 :
      {a b : List ℕ} → AtMost 2 prime a → AtMost 2 prime b → AtMost 2 prime (bn_multiply a b prime)
  mul22 p q = Multiples.times prime v (omega arith) (omega arith) p q

  mul82 :
      {a b : List ℕ} → AtMost 8 prime a → AtMost 2 prime b → AtMost 2 prime (bn_multiply a b prime)
  mul82 p q = Multiples.times prime v (omega arith) (omega arith) p q

  -- A difference that is reduced again.
  minus :
      {a b : List ℕ}
      → AtMost 2 prime a
      → AtMost 2 prime b
      → AtMost 2 prime (bn_fast_mod (bn_subtractmod a b prime) prime)
  minus p q = Multiples.fast_mod-AtMost prime v (Multiples.difference-AtMost prime v p q).bignum

  minus_a_few : curve.minus_a ≤ 4
  minus_a_few = omega (arith, f.small)

  -- `point_jacobian_add` keeps the Jacobian coordinates normalized and at most twice the prime, for
  -- a first point with reduced coordinates, on a curve that meets `IsField` (an odd normalized prime
  -- between `2^256 - 2^224` and `2^256`, whose lowest limb is at least 2 and at least `-a`, `-a` at
  -- most 3, and a normalized `b`).
  pub point_jacobian_add-IsJacobian :
      (p1 : Point) (p2 : Jacobian)
      → IsPoint curve p1
      → IsJacobian curve p2
      → IsJacobian curve (point_jacobian_add p1 p2 curve)
  unfolding point_jacobian_add
  point_jacobian_add-IsJacobian p1 p2 p q =
      let zz = mul22 q.z q.z in
      let zzz = mul22 zz q.z in
      let az = Multiples.mult_k-AtMost prime v curve.minus_a minus_a_few (mul22 zz zz).bignum in
      let x1 = mul22 (Reduced→AtMost p.x) zz in
      let h0 = minus x1 q.x in
      let xz = Multiples.add-AtMost prime v x1 q.x in
      let y1 = mul22 (Reduced→AtMost p.y) zzz in
      let r0 = wide4 (Multiples.difference-AtMost prime v y1 q.y) in
      let yz = Multiples.add-AtMost prime v y1 q.y in
      let tripled = Multiples.mult_k-AtMost prime v 3 (omega arith) (mul22 q.x q.x).bignum in
      let r2 =
        chosen (curve.minus_a == 0) (wide2 tripled)
          (wide4 (Multiples.difference-AtMost prime v tripled az)) in
      let r = Multiples.cmov-AtMost prime v {m = 8} (bn_is_equal _ prime) r2 r0 in
      let h = Multiples.cmov-AtMost prime v (bn_is_equal _ prime) yz (wide2 h0) in
      let hsq = Multiples.multiply-AtMost prime v h h in
      let hcb = Multiples.multiply-AtMost prime v (wide2 hsq) h in
      let hsqx = mul82 xz hsq in
      let hcby = mul82 yz hcb in
      let x3 = minus (Multiples.multiply-AtMost prime v r r) hsqx in
      let twice = Multiples.subtractmod-AtMost prime v (difference6 hsqx x3) x3 in
      let rise =
        Multiples.difference-AtMost prime v (Multiples.multiply-AtMost prime v r twice) hcby in
      record {
        x = x3;
        y = Multiples.fast_mod-AtMost prime v (Multiples.half-AtMost prime v f.odd rise).bignum;
        z = mul82 h q.z;
      }

  -- `point_jacobian_double` keeps the Jacobian coordinates normalized and at most twice the prime,
  -- on a curve that meets `IsField` (an odd normalized prime between `2^256 - 2^224` and `2^256`,
  -- whose lowest limb is at least 2 and at least `-a`, `-a` at most 3, and a normalized `b`).
  pub point_jacobian_double-IsJacobian :
      (p : Jacobian) → IsJacobian curve p → IsJacobian curve (point_jacobian_double p curve)
  unfolding point_jacobian_double
  point_jacobian_double-IsJacobian p q =
      let tripled = Multiples.mult_k-AtMost prime v 3 (omega arith) (mul22 q.x q.x).bignum in
      let zz = mul22 q.z q.z in
      let az4 = Multiples.mult_k-AtMost prime v curve.minus_a minus_a_few (mul22 zz zz).bignum in
      let m =
        wide4
          (Multiples.half-AtMost prime v f.odd (Multiples.difference-AtMost prime v tripled az4)) in
      let ysq = mul22 q.y q.y in
      let xysq = mul22 q.x ysq in
      let twice = Multiples.fast_mod-AtMost prime v (Multiples.lshift-AtMost prime v xysq).bignum in
      let x3 = minus (Multiples.multiply-AtMost prime v m m) twice in
      let rise =
        Multiples.multiply-AtMost prime v m (wide4 (Multiples.difference-AtMost prime v xysq x3)) in
      record { x = x3; y = minus rise (mul22 ysq ysq); z = mul22 q.y q.z }
