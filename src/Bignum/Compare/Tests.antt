-- ===== src/Bignum/Compare/Tests.antt =====
-- `bn_cmov`, `bn_is_zero` and `bn_is_equal`.
use aex_cpp_sdk.Base.{ℕ, ◌-◌, ◌%◌, ◌^◌, ◌≡◌, refl, sym, ap, ap₂, ◌∙◌}
use aex_cpp_sdk.Base.{
  arith, List, [], ◌∷◌, length, All, IsU32, Bool, true, false, bit_and, bit_and-low,
}
use aex_cpp_sdk.Base.{bit_and-zero, bit_or, bit_or-zero, bit_or_comm, if◌then◌else◌, to_bit}
use aex_cpp_sdk.Base.{
  bit_or-ge, bit_xor, bit_xor-zero, bit_xor_self, bit_xor_cancel, ◌↔◌, ◌==◌, ==_iff, get_or,
}
use mathlib.Core.List.{tail}
use aex_cpp_sdk.Bignum.Value.{value, value-injective, IsBignum}
use aex_cpp_sdk.Bignum.Compare.{cmov_loop, bn_cmov, or_limbs, bn_is_zero, differing, bn_is_equal}

keep : (a b : ℕ) → IsU32 a → bit_or (bit_and a (2 ^ 32 - 1)) (bit_and b 0) ≡ a
keep a b h = ap₂ bit_or (bit_and-low 32 a) (bit_and-zero b) ∙ bit_or-zero (a % 2 ^ 32) ∙ omega arith

cmov_true :
    (us vs : List ℕ) → length us ≡ length vs → All IsU32 us → cmov_loop (2 ^ 32 - 1) 0 us vs ≡ us
unfolding cmov_loop
cmov_true [] vs n h = refl
cmov_true (u ∷ us) [] n h = absurd (omega arith)
cmov_true (u ∷ us) (v ∷ vs) n (h, hs) = ap₂ ◌∷◌ (keep u v h) (cmov_true us vs (omega arith) hs)

cmov_false :
    (us vs : List ℕ) → length us ≡ length vs → All IsU32 vs → cmov_loop 0 (2 ^ 32 - 1) us vs ≡ vs
unfolding cmov_loop
cmov_false [] [] n h = refl
cmov_false [] (v ∷ vs) n h = absurd (omega arith)
cmov_false (u ∷ us) [] n h = absurd (omega arith)
cmov_false (u ∷ us) (v ∷ vs) n (h, hs) =
    ap₂ ◌∷◌ (bit_or_comm (bit_and u 0) (bit_and v (2 ^ 32 - 1)) ∙ keep v u h)
      (cmov_false us vs (omega arith) hs)

-- `bn_cmov` with the condition 1 or 0 on equally many 32-bit limbs chooses the first or the second
-- number.
pub bn_cmov_lem :
    (b : Bool) (us vs : List ℕ)
    → length us ≡ length vs
    → All IsU32 us
    → All IsU32 vs
    → bn_cmov (to_bit b) us vs ≡ (if b then us else vs)
unfolding bn_cmov
bn_cmov_lem true us vs n p q = cmov_true us vs n p
bn_cmov_lem false us vs n p q = cmov_false us vs n q

-- An accumulated `|` is 0 exactly when every part is.
or_zero : (a b : ℕ) → bit_or a b ≡ 0 → (a ≡ 0) × (b ≡ 0)
or_zero a b h = omega (arith, bit_or-ge a b, bit_or-ge b a, bit_or_comm a b)

or_limbs-eq-zero : (r : ℕ) (us : List ℕ) → (or_limbs r us ≡ 0) ↔ ((r ≡ 0) × (value us ≡ 0))
unfolding or_limbs
or_limbs-eq-zero r [] = ((λ h. (h, refl)), (λ h. h.0))
or_limbs-eq-zero r (u ∷ us) = (
  (λ h.
      let rest = (or_limbs-eq-zero (bit_or r u) us).0 h in
      let both = or_zero r u rest.0 in (both.0, omega (arith, both.1, rest.1))),
  (λ h.
      let none : bit_or r u ≡ 0 = ap₂ bit_or h.0 (unshifted h.1) ∙ bit_or-zero 0 in
      (or_limbs-eq-zero (bit_or r u) us).1 (none, omega (arith, h.1))),
)
  where
    unshifted : value (u ∷ us) ≡ 0 → u ≡ 0
    unshifted e = omega arith

-- `bn_is_zero` is the test of the value against zero, for any limbs.
pub bn_is_zero_lem : (a : List ℕ) → bn_is_zero a ≡ (value a == 0)
unfolding bn_is_zero
bn_is_zero_lem a = let e = or_limbs-eq-zero 0 a in ground (arith, e.0, e.1, ==_iff (or_limbs 0 a) 0)

xor_zero : (a b : ℕ) → bit_xor a b ≡ 0 → a ≡ b
xor_zero a b h = sym (bit_xor-zero a) ∙ sym (ap (bit_xor a) h) ∙ bit_xor_cancel a b

differing-eq-zero :
    (r : ℕ) (us vs : List ℕ)
    → length us ≡ length vs
    → (differing r us vs ≡ 0) ↔ ((r ≡ 0) × (us ≡ vs))
unfolding differing
differing-eq-zero r [] [] n = ((λ h. (h, refl)), (λ h. h.0))
differing-eq-zero r [] (v ∷ vs) n = absurd (omega arith)
differing-eq-zero r (u ∷ us) [] n = absurd (omega arith)
differing-eq-zero r (u ∷ us) (v ∷ vs) n = (
  (λ h.
      let rest = (differing-eq-zero (bit_or r (bit_xor u v)) us vs (omega arith)).0 h in
      let both = or_zero r (bit_xor u v) rest.0 in (both.0, ap₂ ◌∷◌ (xor_zero u v both.1) rest.1)),
  (λ h.
      let same : u ≡ v = ap (λ l. get_or l 0 u) h.1 in
      let none : bit_or r (bit_xor u v) ≡ 0 =
        ap₂ bit_or h.0 (ap (bit_xor u) (sym same) ∙ bit_xor_self u) ∙ bit_or-zero 0 in
      (differing-eq-zero (bit_or r (bit_xor u v)) us vs (omega arith)).1 (none, ap tail h.1)),
)

-- `bn_is_equal` of normalized numbers is the equality test of their values.
pub bn_is_equal_lem :
    (a b : List ℕ) → IsBignum a → IsBignum b → bn_is_equal a b ≡ (value a == value b)
unfolding bn_is_equal
bn_is_equal_lem a b p q =
    let n : length a ≡ length b = p.limbs ∙ sym q.limbs in
    let e = differing-eq-zero 0 a b n in
    ground (
      arith,
      λ (h : differing 0 a b ≡ 0). ap value (e.0 h).1,
      λ (h : value a ≡ value b). e.1 (refl, value-injective a b p.normal q.normal n h),
    )
