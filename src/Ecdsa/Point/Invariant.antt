-- ===== src/Ecdsa/Point/Invariant.antt =====
-- The operations on affine points keep the coordinates less than the prime.
use aex_cpp_sdk.Base.{ℕ, refl, arith, List, Bool, true, false, if◌then◌else◌}
use aex_cpp_sdk.Bignum.Value.{AtMost, Reduced, weaken, Reduced→AtMost}
use aex_cpp_sdk.Bignum.Compare.{bn_zero}
use aex_cpp_sdk.Bignum.Shift.{bn_lshift}
use aex_cpp_sdk.Bignum.Shift.Halving.{bn_lshift_lem}
use aex_cpp_sdk.Bignum.Reduce.FastMod.{IsPrimeSize}
use aex_cpp_sdk.Bignum.Multiples
use aex_cpp_sdk.Ecdsa.Curve.{Point, Curve}
use aex_cpp_sdk.Ecdsa.Curve.Field.{IsField, IsPoint}
use aex_cpp_sdk.Ecdsa.Point.{infinity, chord, point_double, point_add}

module _ (curve : Curve) (f : IsField curve) where
  abbrev prime : List ℕ
  prime = curve.prime

  abbrev v : IsPrimeSize prime
  v = f.prime

  pub infinity-IsPoint : IsPoint curve infinity
  unfolding infinity bn_zero
  infinity-IsPoint =
      let zero_reduced : Reduced prime bn_zero = record {
        bignum = record { limbs = refl; normal = omega arith };
        less = omega (arith, f.prime.above);
      } in
      record { x = zero_reduced; y = zero_reduced }

  chosen :
      {p q : Point} (c : Bool)
      → IsPoint curve p
      → IsPoint curve q
      → IsPoint curve (if c then p else q)
  chosen true p q = p
  chosen false p q = q

  chord-IsPoint :
      {lambda sub x y : List ℕ}
      → AtMost 2 prime lambda
      → AtMost 2 prime sub
      → Reduced prime x
      → Reduced prime y
      → IsPoint curve (chord prime lambda sub x y)
  unfolding chord
  chord-IsPoint l s p q =
      let square = Multiples.times prime v (omega arith) (omega arith) l l in
      let xr = Multiples.mod-Reduced prime v (
        Multiples.fast_mod-IsPartly prime v
          (Multiples.difference-AtMost prime v square s).bignum) in
      let run = Multiples.difference-AtMost prime v (Reduced→AtMost p) (Reduced→AtMost xr) in
      let rise = Multiples.times prime v (omega arith) (omega arith) l run in
      let yr = Multiples.mod-Reduced prime v (
        Multiples.fast_mod-IsPartly prime v
          (Multiples.difference-AtMost prime v rise (Reduced→AtMost q)).bignum) in
      record { x = xr; y = yr }

  double : {a : List ℕ} → Reduced prime a → AtMost 2 prime (bn_lshift a)
  double {a} p =
      let s = bn_lshift_lem a p.bignum in
      record { bignum = s.0; bound = omega (arith, s.1, p.less, f.prime.below) }

  -- `point_double` keeps reduced coordinates.
  pub point_double-IsPoint : (p : Point) → IsPoint curve p → IsPoint curve (point_double curve p)
  unfolding point_double
  point_double-IsPoint p q =
      let inv =
        Multiples.inverse-Reduced prime v f.low
          (weaken (omega arith) (Multiples.mult_k-AtMost prime v 2 (omega arith) q.y.bignum)) in
      let x = Reduced→AtMost q.x in
      let square = Multiples.times prime v (omega arith) (omega arith) x x in
      let slope =
        Multiples.subi-AtMost prime v curve.minus_a f.coefficient
          (Multiples.mult_k-AtMost prime v 3 (omega arith) square.bignum) in
      let lambda = Multiples.times prime v (omega arith) (omega arith) slope (Reduced→AtMost inv) in
      chosen _ q (chosen _ infinity-IsPoint (chord-IsPoint lambda (double q.x) q.x q.y))

  -- `point_add` of points with reduced coordinates gives a point with reduced coordinates, in each
  -- of its cases, on a curve that meets `IsField` (an odd normalized prime between `2^256 - 2^224`
  -- and `2^256`, whose lowest limb is at least 2 and at least `-a`, `-a` at most 3, and a normalized
  -- `b`).
  pub point_add-IsPoint :
      (p q : Point) → IsPoint curve p → IsPoint curve q → IsPoint curve (point_add curve p q)
  unfolding point_add
  point_add-IsPoint p q r s =
      let inv = Multiples.inverse-Reduced prime v f.low (
        weaken (omega arith)
          (Multiples.difference-AtMost prime v (Reduced→AtMost s.x) (Reduced→AtMost r.x))) in
      let rise = Multiples.difference-AtMost prime v (Reduced→AtMost s.y) (Reduced→AtMost r.y) in
      let lambda = Multiples.times prime v (omega arith) (omega arith) (Reduced→AtMost inv) rise in
      let sum = Multiples.addmod-AtMost prime v r.x.bignum s.x.bignum in
      chosen _ s (
        chosen _ r (
          chosen _ (point_double-IsPoint q s)
            (chosen _ infinity-IsPoint (chord-IsPoint lambda sum r.x r.y))))
