-- ===== src/Ecdsa/Jacobian.antt =====
-- Points in Jacobian coordinates: `(x, y, z)` stands for `(x / z^2, y / z^3)`.
pub mod Negation
pub mod Results
pub mod Nonces
pub mod Invariant
use aex_cpp_sdk.Base.{
  ℕ, zero, suc, ◌+◌, ◌-◌, ◌*◌, ◌^◌, List, [], ◌∷◌, Bool, ◌||◌, not, to_bit, ◌==◌, if◌then◌else◌,
}
use aex_cpp_sdk.Base.{Option, none, some, u32, not32, bit_and, bit_or, ◌>>◌}
use aex_cpp_sdk.Bignum.Compare.{bn_is_zero, bn_is_less, bn_is_equal, bn_cmov}
use aex_cpp_sdk.Bignum.Shift.{bn_lshift, bn_mult_half}
use aex_cpp_sdk.Bignum.Arith.{bn_add, bn_subtractmod}
use aex_cpp_sdk.Bignum.Reduce.{bn_fast_mod, bn_mod, bn_mult_k}
use aex_cpp_sdk.Bignum.Multiply.{bn_multiply}
use aex_cpp_sdk.Bignum.Power.{bn_inverse}
use aex_cpp_sdk.Ecdsa.Curve.{Point, Curve}

-- `jacobian_curve_point`.
pub record Jacobian : Type 0 where
  pub x : List ℕ
  pub y : List ℕ
  pub z : List ℕ

-- The limbs of `conditional_negate` from a carry `tmp`; the last limb is not different from the others.
unfoldable pub negate_loop : ℕ → ℕ → List ℕ → List ℕ → List ℕ
negate_loop cond tmp [] ps = []
negate_loop cond tmp (a ∷ us) [] = []
negate_loop cond tmp (a ∷ us) (p ∷ ps) =
    let t = u32 (tmp + (0x3fffffff + 2 * p + 2 ^ 32 - a)) in
    bit_or (bit_and (bit_and t 0x3fffffff) cond) (bit_and a (not32 cond))
    ∷ negate_loop cond (t >> 30) us ps

-- `conditional_negate`.
unfoldable pub conditional_negate : ℕ → List ℕ → List ℕ → List ℕ
conditional_negate cond a prime = negate_loop cond 1 a prime

-- Computations that take random words, from the list of those to come. `none` is a list that ends
-- before a suitable number is found.
abbrev pub Random : Type 0 → Type 0
Random A = List ℕ → Option (A × List ℕ)

infixl 5 ◌>>=◌
abbrev pub ◌>>=◌ : {A B : Type 0} → Random A → (A → Random B) → Random B
◌>>=◌ m f words = elim (m words) [ none ↦ none | some (a, rest) ↦ f a rest ]

abbrev pub pure : {A : Type 0} → A → Random A
pure a words = some (a, words)

-- `generate_k_random`: nine words to a try.
unfoldable pub generate_k_random : List ℕ → Random (List ℕ)
generate_k_random prime (a ∷ b ∷ c ∷ d ∷ e ∷ f ∷ g ∷ h ∷ i ∷ rest) =
    let k : List ℕ =
      bit_and a 0x3FFFFFFF
      ∷ bit_and b 0x3FFFFFFF
      ∷ bit_and c 0x3FFFFFFF
      ∷ bit_and d 0x3FFFFFFF
      ∷ bit_and e 0x3FFFFFFF
      ∷ bit_and f 0x3FFFFFFF
      ∷ bit_and g 0x3FFFFFFF
      ∷ bit_and h 0x3FFFFFFF
      ∷ bit_and i 0xFFFF
      ∷ [] in
    let again = generate_k_random prime rest in
    if bn_is_zero k || not (bn_is_less k prime) then again else some (k, rest)
generate_k_random prime words = none

-- `curve_to_jacobian` for a given random `z`.
unfoldable pub at_denominator : List ℕ → Point → List ℕ → Jacobian
at_denominator z p prime =
    let square = bn_multiply z z prime in
    let cube = bn_multiply z square prime in
    record { x = bn_multiply p.x square prime; y = bn_multiply p.y cube prime; z = z }

-- `curve_to_jacobian`.
unfoldable pub curve_to_jacobian : Point → List ℕ → Random Jacobian
curve_to_jacobian p prime = do z ← generate_k_random prime; pure (at_denominator z p prime)

-- `jacobian_to_curve`.
unfoldable pub jacobian_to_curve : Jacobian → List ℕ → Point
jacobian_to_curve jp prime =
    let inv = bn_inverse jp.z prime in
    let square = bn_multiply inv inv prime in
    let cube = bn_multiply square inv prime in
    record {
      x = bn_mod (bn_multiply jp.x square prime) prime;
      y = bn_mod (bn_multiply jp.y cube prime) prime;
    }

-- `point_jacobian_add`: the new value of `p2`.
unfoldable pub point_jacobian_add : Point → Jacobian → Curve → Jacobian
point_jacobian_add p1 p2 curve =
    let prime = curve.prime in
    let zz = bn_multiply p2.z p2.z prime in
    let zzz = bn_multiply zz p2.z prime in
    let az = bn_mult_k (bn_multiply zz zz prime) curve.minus_a prime in
    let x1 = bn_multiply p1.x zz prime in
    let h0 = bn_fast_mod (bn_subtractmod x1 p2.x prime) prime in
    let xz = bn_add x1 p2.x in
    let is_doubling = to_bit (bn_is_equal h0 prime) in
    let y1 = bn_multiply p1.y zzz prime in
    let r0 = bn_subtractmod y1 p2.y prime in
    let yz = bn_add y1 p2.y in
    let tripled = bn_mult_k (bn_multiply p2.x p2.x prime) 3 prime in
    let r2 = if curve.minus_a == 0 then tripled else bn_subtractmod tripled az prime in
    let r = bn_cmov is_doubling r2 r0 in
    let h = bn_cmov is_doubling yz h0 in
    let hsq = bn_multiply h h prime in
    let hcb = bn_multiply hsq h prime in
    let hsqx = bn_multiply xz hsq prime in
    let hcby = bn_multiply yz hcb prime in
    let x3 = bn_fast_mod (bn_subtractmod (bn_multiply r r prime) hsqx prime) prime in
    let twice = bn_subtractmod (bn_subtractmod hsqx x3 prime) x3 prime in
    let rise = bn_subtractmod (bn_multiply r twice prime) hcby prime in
    record { x = x3; y = bn_fast_mod (bn_mult_half rise prime) prime; z = bn_multiply h p2.z prime }

-- `point_jacobian_double`: the new value of `p`.
unfoldable pub point_jacobian_double : Jacobian → Curve → Jacobian
point_jacobian_double p curve =
    let prime = curve.prime in
    let tripled = bn_mult_k (bn_multiply p.x p.x prime) 3 prime in
    let zz = bn_multiply p.z p.z prime in
    let az4 = bn_mult_k (bn_multiply zz zz prime) curve.minus_a prime in
    let m = bn_mult_half (bn_subtractmod tripled az4 prime) prime in
    let msq = bn_multiply m m prime in
    let ysq = bn_multiply p.y p.y prime in
    let xysq = bn_multiply p.x ysq prime in
    let twice = bn_fast_mod (bn_lshift xysq) prime in
    let x3 = bn_fast_mod (bn_subtractmod msq twice prime) prime in
    let rise = bn_multiply m (bn_subtractmod xysq x3 prime) prime in
    record {
      x = x3;
      y = bn_fast_mod (bn_subtractmod rise (bn_multiply ysq ysq prime) prime) prime;
      z = bn_multiply p.y p.z prime;
    }
