-- ===== src/Ecdsa/Keys/Validation.antt =====
-- What `ecdsa_validate_pubkey` accepts.
use aex_cpp_sdk.Base.{ℕ, ◌+◌, ◌-◌, ◌*◌, ◌%◌, ◌^◌, ◌≤◌, ◌<◌, ◌≡◌, ◌≢◌, ◌↔◌, refl, sym, ap, ◌∙◌}
use aex_cpp_sdk.Base.{arith, List, Bool, true, false, ltb}
use aex_cpp_sdk.Base.{◌||◌, ◌&&◌, not, ◌==◌, ==_iff, if◌then◌else◌}
use aex_cpp_sdk.Base.{mul_residue, add_residue, cancel_residue}
use native.Mathlib.Nat.{mod-mod, mod-eq_of_lt, mod-lt, add-mul-mod_self_right}
use aex_cpp_sdk.Bignum.Value.{AtMost, IsPartly, value, IsBignum}
use aex_cpp_sdk.Bignum.Compare.{bn_is_equal}
use aex_cpp_sdk.Bignum.Compare.Less.{bn_is_less_lem}
use aex_cpp_sdk.Bignum.Compare.Tests.{bn_is_equal_lem, bn_is_zero_lem}
use aex_cpp_sdk.Bignum.Arith.{bn_subi}
use aex_cpp_sdk.Bignum.Reduce.{bn_mod, bn_addmod}
use aex_cpp_sdk.Bignum.Reduce.FastMod.{bn_mod_lem}
use aex_cpp_sdk.Bignum.Reduce.Modular.{bn_subi_lem, bn_addmod_lem}
use aex_cpp_sdk.Bignum.Multiply.{bn_multiply}
use aex_cpp_sdk.Bignum.Multiply.Product.{bn_multiply_lem, bn_multiply_bounded}
use aex_cpp_sdk.Ecdsa.Curve.{Point, Curve}
use aex_cpp_sdk.Ecdsa.Curve.Field.{IsField}
use aex_cpp_sdk.Ecdsa.Point.{point_is_infinity}
use aex_cpp_sdk.Ecdsa.Keys.{square_side, cubic_side, ecdsa_validate_pubkey}

-- `y^2 = x^3 + a x + b` modulo the prime, without a subtraction.
abbrev pub OnCurve : Curve → ℕ → ℕ → Type 0
OnCurve curve x y =
    let p = value curve.prime in (y * y + curve.minus_a * x) % p ≡ (x * x * x + value curve.b) % p

-- A point of the curve, with reduced coordinates, which are not both zero.
pub record IsKey (curve : Curve) (point : Point) : Type 0 where
  pub finite : value point.x + value point.y ≢ 0
  pub x_reduced : value point.x < value curve.prime
  pub y_reduced : value point.y < value curve.prime
  pub on_curve : OnCurve curve (value point.x) (value point.y)

module _ (curve : Curve) (f : IsField curve) (point : Point) (p : IsBignum point.x)
    (q : IsBignum point.y) where
  partly : {a : List ℕ} → IsBignum a → value a < value curve.prime → AtMost 8 curve.prime a
  partly p h = record { bignum = p; bound = omega arith }

  -- `bn_mod` of a partly reduced number is its residue.
  reduced :
      (a : List ℕ) (n : ℕ)
      → IsPartly curve.prime a
      → value a % value curve.prime ≡ n % value curve.prime
      → IsBignum (bn_mod a curve.prime) × (value (bn_mod a curve.prime) ≡ n % value curve.prime)
  reduced a n p e =
      let m = bn_mod_lem a curve.prime p.bignum f.prime.bignum p.partly in (m.0, m.1 ∙ e)

  square_side-value :
      value point.y < value curve.prime
      → IsBignum (square_side curve point)
        × (value (square_side curve point) ≡ value point.y * value point.y % value curve.prime)
  unfolding square_side
  square_side-value h =
      let y = partly q h in
      let m = bn_multiply_bounded curve.prime f.prime point.y point.y y y in
      reduced (bn_multiply point.y point.y curve.prime) (value point.y * value point.y) m.0 m.1

  -- The cubic side, with `minus_a * x` added.
  cubic :
      (x s minus_a m b : ℕ)
      → minus_a ≤ m
      → s % m ≡ x * x % m
      → (x * (s + (m - minus_a)) + b + minus_a * x) % m ≡ (x * x * x + b) % m
  cubic x s minus_a m b h e =
      let total : x * (s + (m - minus_a)) + b + minus_a * x ≡ (s * x + b) + x * m = grind arith in
      ap (λ (t : ℕ). t % m) total
      ∙ add-mul-mod_self_right (s * x + b) x m
      ∙ add_residue m (s * x) b (x * x * x) b (mul_residue m s x (x * x) x e refl) refl

  cubic_side-value :
      value point.x < value curve.prime
      → IsBignum (cubic_side curve point)
        × (value (cubic_side curve point) < value curve.prime)
        × ((value (cubic_side curve point) + curve.minus_a * value point.x) % value curve.prime
            ≡ (value point.x * value point.x * value point.x + value curve.b) % value curve.prime)
  unfolding cubic_side
  cubic_side-value h =
      let x = value point.x in
      let m = value curve.prime in
      let known = partly p h in
      let square = bn_multiply point.x point.x curve.prime in
      let sq = bn_multiply_bounded curve.prime f.prime point.x point.x known known in
      let slope = bn_subi square curve.minus_a curve.prime in
      let sub =
        bn_subi_lem square curve.minus_a curve.prime sq.0.bignum f.prime.bignum f.coefficient in
      let slope_value : value slope ≡ value square + (m - curve.minus_a) =
        omega (arith, sub.1, sq.0.partly, f.prime.below) in
      let fits : x * value slope < 2 ^ 271 * m =
        product_fits x (value slope) m f.prime.below h (omega (arith, slope_value, sq.0.partly)) in
      let mul = bn_multiply_lem point.x slope curve.prime p sub.0 f.prime fits in
      let sum =
        bn_addmod_lem (bn_multiply point.x slope curve.prime) curve.b curve.prime f.prime mul.0
          f.b in
      let total = x * (value square + (m - curve.minus_a)) + value curve.b in
      let residue : value (bn_addmod (bn_multiply point.x slope curve.prime) curve.b curve.prime)
            % m
          ≡ total % m =
        sum.1
        ∙ add_residue m (value (bn_multiply point.x slope curve.prime)) (value curve.b)
            (x * (value square + (m - curve.minus_a))) (value curve.b)
            (mul.2 ∙ ap (λ (t : ℕ). x * t % m) slope_value) refl in
      let out =
        reduced (bn_addmod (bn_multiply point.x slope curve.prime) curve.b curve.prime) total sum.0
          residue in
      let cub = value (cubic_side curve point) in
      let same : cub % m ≡ total % m = ap (λ (t : ℕ). t % m) out.1 ∙ mod-mod total m in
      let pos : 0 < m = omega (arith, f.prime.above) in
      (
        out.0,
        omega (arith, out.1, mod-lt total pos),
        add_residue m cub (curve.minus_a * x) total (curve.minus_a * x) same refl
            ∙ cubic x (value square) curve.minus_a m (value curve.b)
                (omega (arith, f.small, f.prime.above)) sq.1,
      )
    where
      product_fits : (x s m : ℕ) → m < 2 ^ 256 → x < m → s < 3 * m → x * s < 2 ^ 271 * m
      product_fits x s m h p q = let a : x * s ≤ x * (2 ^ 258) = grind arith in omega arith

  -- Equal sides are the curve's equation.
  sides :
      value point.x < value curve.prime
      → value point.y < value curve.prime
      → (bn_is_equal (cubic_side curve point) (square_side curve point) ≡ true)
        ↔ OnCurve curve (value point.x) (value point.y)
  sides h k =
      let m = value curve.prime in
      let c = cubic_side-value h in
      let s = square_side-value k in
      let y = value point.y * value point.y in
      let ax = curve.minus_a * value point.x in
      let cub = value (cubic_side curve point) in
      let squ = value (square_side curve point) in
      let equal = bn_is_equal_lem (cubic_side curve point) (square_side curve point) c.0 s.0 in
      let pos : 0 < m = omega (arith, f.prime.above) in
      let residue : squ % m ≡ y % m = ap (λ (t : ℕ). t % m) s.1 ∙ mod-mod y m in
      (
        λ e.
            let same : cub ≡ squ = (==_iff cub squ).0 (sym equal ∙ e) in
            sym (add_residue m squ ax y ax residue refl)
            ∙ ap (λ (t : ℕ). (t + ax) % m) (sym same)
            ∙ c.2,
        λ e.
            let same : cub % m ≡ y % m = cancel_residue m cub y ax pos (c.2 ∙ sym e) in
            equal ∙ (==_iff cub squ).1 (sym (mod-eq_of_lt c.1) ∙ same ∙ sym s.1),
      )

  -- The branches of the tests.
  branches :
      (x y m : ℕ) (e : Bool)
      → ((if (x == 0) && (y == 0)
            then false
            else if not (ltb x m) || not (ltb y m)
            then false
            else e)
          ≡ true)
        ↔ ((x + y ≢ 0) × (x < m) × (y < m) × (e ≡ true))
  branches x y m e = ground arith

  -- `ecdsa_validate_pubkey` accepts a point with normalized coordinates exactly if they are less
  -- than the prime, not both zero, and satisfy the equation of the curve modulo the prime, on a
  -- curve that meets `IsField` (an odd normalized prime between `2^256 - 2^224` and `2^256`, whose
  -- lowest limb is at least 2 and at least `-a`, `-a` at most 3, and a normalized `b`).
  pub ecdsa_validate_pubkey_lem : (ecdsa_validate_pubkey curve point ≡ true) ↔ IsKey curve point
  unfolding ecdsa_validate_pubkey point_is_infinity
  ecdsa_validate_pubkey_lem =
      let x = value point.x in
      let y = value point.y in
      let m = value curve.prime in
      let e = bn_is_equal (cubic_side curve point) (square_side curve point) in
      let b = branches x y m e in
      rw (bn_is_zero_lem point.x) (
        rw (bn_is_zero_lem point.y) (
          rw (bn_is_less_lem point.x curve.prime p f.prime.bignum) (
            rw (bn_is_less_lem point.y curve.prime q f.prime.bignum) (
              λ h.
                  let (finite, x_reduced, y_reduced, equal) = b.0 h in
                  record {
                    finite = finite;
                    x_reduced = x_reduced;
                    y_reduced = y_reduced;
                    on_curve = (sides x_reduced y_reduced).0 equal;
                  },
              λ h. b.1 (
                h.finite,
                h.x_reduced,
                h.y_reduced,
                (sides h.x_reduced h.y_reduced).1 h.on_curve,
              ),
            ))))
