-- ===== src/Bignum/Compare/Less.antt =====
-- `bn_is_less` compares the numbers.
use aex_cpp_sdk.Base.{ℕ, suc, ◌+◌, ◌*◌, ◌^◌, ◌≤◌, ◌<◌, ◌≡◌, refl, sym, ap, ◌∙◌}
use aex_cpp_sdk.Base.{
  arith, List, [], ◌∷◌, length, Bool, ltb, to_bit, bit_or, bit_or-fields, u32, ◌<<◌,
}
use native.Mathlib.Nat.{pow-suc, pow-le-pow_right, le_trans}
use aex_cpp_sdk.Bignum.Value.{value, IsNormal, IsBignum}
use aex_cpp_sdk.Bignum.Compare.{less_bits, bn_is_less}

-- A bit is shifted in.
shift_bit : (r : ℕ) (b : Bool) → r < 2 ^ 31 → bit_or (u32 (r << 1)) (to_bit b) ≡ 2 * r + to_bit b
shift_bit r b h =
    ap (λ (x : ℕ). bit_or x (to_bit b)) fits
    ∙ bit_or-fields 1 r (to_bit b) (ground arith)
    ∙ omega arith
  where
    fits : u32 (r << 1) ≡ r * 2 ^ 1
    fits = omega arith

-- What the two words say of the limbs that were visited.
record Compares (us vs : List ℕ) : Type 0 where
  small : ((less_bits us vs).0 < 2 ^ length us) × ((less_bits us vs).1 < 2 ^ length us)
  less : value us < value vs → (less_bits us vs).1 < (less_bits us vs).0
  equal : value us ≡ value vs → (less_bits us vs).0 ≡ (less_bits us vs).1
  greater : value vs < value us → (less_bits us vs).0 < (less_bits us vs).1

less_bits-cons :
    (u v : ℕ) (us vs : List ℕ)
    → suc (length us) ≤ 31
    → Compares us vs
    → ((less_bits (u ∷ us) (v ∷ vs)).0 ≡ 2 * (less_bits us vs).0 + to_bit (ltb u v))
      × ((less_bits (u ∷ us) (v ∷ vs)).1 ≡ 2 * (less_bits us vs).1 + to_bit (ltb v u))
unfolding less_bits
less_bits-cons u v us vs k rest = (
  shift_bit _ (ltb u v) (le_trans rest.small.0 room),
  shift_bit _ (ltb v u) (le_trans rest.small.1 room),
)
  where
    room : 2 ^ length us ≤ 2 ^ 31
    room = pow-le-pow_right (omega arith) {i = length us} {j = 31} (omega arith)

Compares-cons :
    (u v : ℕ) (us vs : List ℕ)
    → suc (length us) ≤ 31
    → u < 2 ^ 30
    → v < 2 ^ 30
    → Compares us vs
    → Compares (u ∷ us) (v ∷ vs)
Compares-cons u v us vs k p q rest =
    let words = less_bits-cons u v us vs k rest in
    record {
      small = (
        ground (arith, words.0, rest.small.0, pow-suc 2 (length us)),
        ground (arith, words.1, rest.small.1, pow-suc 2 (length us)),
      );
      less = λ h. ground (arith, words.0, words.1, rest.less, rest.equal, rest.greater);
      equal = λ h. ground (arith, words.0, words.1, rest.less, rest.equal, rest.greater);
      greater = λ h. ground (arith, words.0, words.1, rest.less, rest.equal, rest.greater);
    }

less_bits-Compares :
    (us vs : List ℕ)
    → length us ≤ 31
    → length us ≡ length vs
    → IsNormal us
    → IsNormal vs
    → Compares us vs
less_bits-Compares [] [] k n p q =
    unfold less_bits in
    record {
      small = omega arith;
      less = λ h. absurd (omega arith);
      equal = λ h. refl;
      greater = λ h. absurd (omega arith);
    }
less_bits-Compares [] (v ∷ vs) k n p q = absurd (omega arith)
less_bits-Compares (u ∷ us) [] k n p q = absurd (omega arith)
less_bits-Compares (u ∷ us) (v ∷ vs) k n (p, ps) (q, qs) =
    Compares-cons u v us vs k p q (less_bits-Compares us vs (omega arith) (omega arith) ps qs)

-- `bn_is_less` of normalized numbers is the comparison of their values.
pub bn_is_less_lem :
    (a b : List ℕ) → IsBignum a → IsBignum b → bn_is_less a b ≡ ltb (value a) (value b)
unfolding bn_is_less
bn_is_less_lem a b p q =
    let c =
      less_bits-Compares a b (omega (arith, p.limbs)) (p.limbs ∙ sym q.limbs) p.normal q.normal in
    ground (arith, c.less, c.equal, c.greater)
