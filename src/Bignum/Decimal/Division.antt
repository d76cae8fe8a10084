-- ===== src/Bignum/Decimal/Division.antt =====
-- `bn_divmod58` and `bn_divmod1000` divide.
use aex_cpp_sdk.Base.{ℕ, suc, ◌+◌, ◌*◌, ◌/◌, ◌%◌, ◌<◌, ◌≡◌, refl, ap, ◌∙◌}
use aex_cpp_sdk.Base.{arith, List, [], ◌∷◌, length}
use aex_cpp_sdk.Bignum.Value.{value, IsNormal, IsBignum}
use aex_cpp_sdk.Bignum.Decimal.{divmod_loop, bn_divmod58, bn_divmod1000}

-- A quotient in limbs and a remainder.
record Divides (d : ℕ) (us : List ℕ) (result : List ℕ × ℕ) : Type 0 where
  equation : value result.0 * d + result.1 ≡ value us
  remainder : result.1 < d
  normal : IsNormal result.0
  same_length : length result.0 ≡ length us

divmod58-Divides : (us : List ℕ) → IsNormal us → Divides 58 us (divmod_loop 58 18512790 4 us)
unfolding divmod_loop
divmod58-Divides [] h = record {
  equation = refl;
  remainder = omega arith;
  normal = tt;
  same_length = refl;
}
divmod58-Divides (a ∷ []) h = record {
  equation = omega arith;
  remainder = omega arith;
  normal = omega arith;
  same_length = refl;
}
divmod58-Divides (a ∷ b ∷ us) (h, hs) =
    let rest = divmod58-Divides (b ∷ us) hs in
    record {
      equation = omega (arith, rest.equation, rest.remainder);
      remainder = omega arith;
      normal = (omega (arith, rest.remainder), rest.normal);
      same_length = ap suc rest.same_length;
    }

divmod1000-Divides : (us : List ℕ) → IsNormal us → Divides 1000 us (divmod_loop 1000 1073741 824 us)
unfolding divmod_loop
divmod1000-Divides [] h = record {
  equation = refl;
  remainder = omega arith;
  normal = tt;
  same_length = refl;
}
divmod1000-Divides (a ∷ []) h = record {
  equation = omega arith;
  remainder = omega arith;
  normal = omega arith;
  same_length = refl;
}
divmod1000-Divides (a ∷ b ∷ us) (h, hs) =
    let rest = divmod1000-Divides (b ∷ us) hs in
    record {
      equation = omega (arith, rest.equation, rest.remainder);
      remainder = omega arith;
      normal = (omega (arith, rest.remainder), rest.normal);
      same_length = ap suc rest.same_length;
    }

-- `bn_divmod58` and `bn_divmod1000` of a normalized number give its normalized quotient and its
-- remainder.
pub bn_divmod_lem :
    (a : List ℕ)
    → IsBignum a
    → (IsBignum (bn_divmod58 a).0
        × (value (bn_divmod58 a).0 ≡ value a / 58)
        × ((bn_divmod58 a).1 ≡ value a % 58))
      × (IsBignum (bn_divmod1000 a).0
          × (value (bn_divmod1000 a).0 ≡ value a / 1000)
          × ((bn_divmod1000 a).1 ≡ value a % 1000))
unfolding bn_divmod58 bn_divmod1000
bn_divmod_lem a p =
    let d = divmod58-Divides a p.normal in
    let e = divmod1000-Divides a p.normal in
    (
      (
        record { limbs = d.same_length ∙ p.limbs; normal = d.normal },
        omega (arith, d.equation, d.remainder),
        omega (arith, d.equation, d.remainder),
      ),
      (
        record { limbs = e.same_length ∙ p.limbs; normal = e.normal },
        omega (arith, e.equation, e.remainder),
        omega (arith, e.equation, e.remainder),
      ),
    )
