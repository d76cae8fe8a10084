-- ===== src/Bignum/Shift/Values.antt =====
-- The shifts by one place and the halving modulo a prime, as arithmetic.
use aex_cpp_sdk.Base.{ℕ, suc, ◌+◌, ◌*◌, ◌/◌, ◌%◌, ◌^◌, ◌<◌, ◌≡◌, refl, ap, ◌∙◌}
use aex_cpp_sdk.Base.{
  arith, List, [], ◌∷◌, length, bit_and, bit_or, bit_and-low, fields-bit_or, u32, ◌<<◌, ◌>>◌,
}
use aex_cpp_sdk.Bignum.Value.{value, IsNormal, IsBignum}
use aex_cpp_sdk.Bignum.Shift.{bn_rshift}

-- A limb with the lowest bit of the limb above it on top.
shifted :
    (a b : ℕ) → a < 2 ^ 30 → bit_or (a >> 1) (u32 (bit_and b 1 << 29)) ≡ b % 2 * 2 ^ 29 + a / 2
shifted a b h =
    let low = bit_and-low 1 b in
    let word : u32 (bit_and b 1 << 29) ≡ b % 2 * 2 ^ 29 = omega (arith, low) in
    ap (bit_or (a / 2)) word ∙ fields-bit_or 29 (b % 2) (a / 2) (omega arith)

rshift-value :
    (a : List ℕ)
    → IsNormal a
    → (value (bn_rshift a) ≡ value a / 2)
      × IsNormal (bn_rshift a)
      × (length (bn_rshift a) ≡ length a)
unfolding bn_rshift
rshift-value [] h = (omega arith, tt, refl)
rshift-value (a ∷ []) (h, hs) = (omega arith, (omega arith, tt), refl)
rshift-value (a ∷ b ∷ us) (h, hs) =
    let rest = rshift-value (b ∷ us) hs in
    let e = shifted a b h in (omega (arith, rest.0, e), (omega (arith, e), rest.1), ap suc rest.2)

-- `bn_rshift` halves a normalized number.
pub bn_rshift-value :
    (a : List ℕ) → IsBignum a → IsBignum (bn_rshift a) × (value (bn_rshift a) ≡ value a / 2)
bn_rshift-value a p =
    let r = rshift-value a p.normal in (record { limbs = r.2 ∙ p.limbs; normal = r.1 }, r.0)
