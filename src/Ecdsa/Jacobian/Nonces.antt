-- ===== src/Ecdsa/Jacobian/Nonces.antt =====
-- The random numbers that `generate_k_random` gives, and the change of coordinates with them.
use aex_cpp_sdk.Ecdsa.Jacobian.{
  Jacobian, generate_k_random, at_denominator, curve_to_jacobian, jacobian_to_curve,
}
use aex_cpp_sdk.Base.{ℕ, ◌^◌, ◌<◌, ◌≡◌, ◌≢◌, refl, sym, arith}
use aex_cpp_sdk.Base.{List, [], ◌∷◌, Bool, true, false, ◌||◌, not, ltb, ◌==◌, if◌then◌else◌}
use aex_cpp_sdk.Base.{Option, some, bit_and, bit_and-low}
use aex_cpp_sdk.Bignum.Value.{value, IsBignum, AtMost, Reduced, weaken, Reduced→AtMost}
use aex_cpp_sdk.Bignum.Compare.{bn_is_zero, bn_is_less}
use aex_cpp_sdk.Bignum.Compare.Less.{bn_is_less_lem}
use aex_cpp_sdk.Bignum.Compare.Tests.{bn_is_zero_lem}
use aex_cpp_sdk.Bignum.Arith.Sums.{limb-lt}
use aex_cpp_sdk.Bignum.Reduce.FastMod.{IsPrimeSize}
use aex_cpp_sdk.Bignum.Multiples
use aex_cpp_sdk.Ecdsa.Curve.{Point, Curve}
use aex_cpp_sdk.Ecdsa.Curve.Field.{IsField, IsPoint}
use aex_cpp_sdk.Ecdsa.Jacobian.Invariant.{IsJacobian}
use aex_cpp_sdk.Ecdsa.Jacobian.Results.{Result, Always, pure-Always, bind-Always}

-- What `generate_k_random` gives.
pub record IsNonce (prime k : List ℕ) : Type 0 where
  pub reduced : Reduced prime k
  pub positive : value k ≢ 0

low16 : (i : ℕ) → bit_and i 0xFFFF < 2 ^ 30
low16 i = omega (arith, bit_and-low 16 i)

-- The nine words of a try, cut to their bits, are limbs.
pub try-IsBignum :
    (a b c d e f g h i : ℕ)
    → IsBignum (
        bit_and a 0x3FFFFFFF
        ∷ bit_and b 0x3FFFFFFF
        ∷ bit_and c 0x3FFFFFFF
        ∷ bit_and d 0x3FFFFFFF
        ∷ bit_and e 0x3FFFFFFF
        ∷ bit_and f 0x3FFFFFFF
        ∷ bit_and g 0x3FFFFFFF
        ∷ bit_and h 0x3FFFFFFF
        ∷ bit_and i 0xFFFF
        ∷ [])
try-IsBignum a b c d e f g h i = record {
  limbs = refl;
  normal = (
    limb-lt a,
    (
      limb-lt b,
      (limb-lt c, (limb-lt d, (limb-lt e, (limb-lt f, (limb-lt g, (limb-lt h, (low16 i, tt))))))),
    ),
  );
}

-- `generate_k_random` gives a positive normalized number less than the normalized prime.
pub generate_k_random_lem :
    (prime : List ℕ) → IsBignum prime → Always (IsNonce prime) (generate_k_random prime)
unfolding generate_k_random
generate_k_random_lem prime p = record { holds = λ words. go words }
  where
    suitable :
        (k : List ℕ)
        → IsBignum k
        → (bn_is_zero k || not (bn_is_less k prime)) ≡ false
        → IsNonce prime k
    suitable k q e =
        let r =
          range (value k) (value prime)
            (rw (sym (bn_is_zero_lem k)) (rw (sym (bn_is_less_lem k prime q p)) e)) in
        record { reduced = record { bignum = q; less = r.1 }; positive = r.0 }
      where
        range : (k n : ℕ) → ((k == 0) || not (ltb k n)) ≡ false → (k ≢ 0) × (k < n)
        range k n h = ground arith

    choose :
        (c : Bool) (k rest : List ℕ) (again : Option (List ℕ × List ℕ))
        → (c ≡ false → IsNonce prime k)
        → Result (IsNonce prime) again
        → Result (IsNonce prime) (if c then again else some (k, rest))
    choose true k rest again h r = r
    choose false k rest again h r = h refl

    go : (words : List ℕ) → Result (IsNonce prime) (generate_k_random prime words)
    go (a ∷ b ∷ c ∷ d ∷ e ∷ f ∷ g ∷ h ∷ i ∷ rest) =
        choose _ _ _ _ (suitable _ (try-IsBignum a b c d e f g h i)) (go rest)
    go words = tt

module _ (curve : Curve) (f : IsField curve) where
  abbrev prime : List ℕ
  prime = curve.prime

  abbrev v : IsPrimeSize prime
  v = f.prime

  at_denominator-IsJacobian :
      (z : List ℕ) (p : Point)
      → IsNonce prime z
      → IsPoint curve p
      → IsJacobian curve (at_denominator z p prime)
  unfolding at_denominator
  at_denominator-IsJacobian z p n q =
      let z' = Reduced→AtMost n.reduced in
      let square = Multiples.times prime v (omega arith) (omega arith) z' z' in
      let cube = Multiples.times prime v (omega arith) (omega arith) z' square in
      record {
        x = Multiples.times prime v (omega arith) (omega arith) (Reduced→AtMost q.x) square;
        y = Multiples.times prime v (omega arith) (omega arith) (Reduced→AtMost q.y) cube;
        z = z';
      }

  pub curve_to_jacobian-IsJacobian :
      (p : Point) → IsPoint curve p → Always (IsJacobian curve) (curve_to_jacobian p prime)
  unfolding curve_to_jacobian
  curve_to_jacobian-IsJacobian p q =
      bind-Always (generate_k_random_lem prime v.bignum)
        (λ z n. pure-Always (at_denominator-IsJacobian z p n q))

  wide : {a : List ℕ} → AtMost 2 prime a → AtMost 8 prime a
  wide h = weaken (omega arith) h

  pub jacobian_to_curve-IsPoint :
      (p : Jacobian) → IsJacobian curve p → IsPoint curve (jacobian_to_curve p prime)
  unfolding jacobian_to_curve
  jacobian_to_curve-IsPoint p q =
      let inv =
        Reduced→AtMost (Multiples.inverse-Reduced prime v f.low (weaken (omega arith) q.z)) in
      let square = Multiples.times prime v (omega arith) (omega arith) inv inv in
      let cube = Multiples.times prime v (omega arith) (omega arith) square inv in
      record {
        x =
            Multiples.mod-Reduced prime v
              (Multiples.multiply-IsPartly prime v (wide q.x) (wide square));
        y =
            Multiples.mod-Reduced prime v
              (Multiples.multiply-IsPartly prime v (wide q.y) (wide cube));
      }
