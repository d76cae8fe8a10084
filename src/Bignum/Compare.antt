-- ===== src/Bignum/Compare.antt =====
-- Constants and tests. The tests visit every limb, so that their time does not depend on the values.
pub mod Less
pub mod Tests
use aex_cpp_sdk.Base.{ℕ, suc, ◌+◌, ◌-◌, ◌*◌, List, [], ◌∷◌, Bool, true, false, to_bit, ltb, ◌==◌}
use aex_cpp_sdk.Base.{
  if◌then◌else◌, replicate, get_or, u32, neg32, not32, bit_and, bit_or, bit_xor, ◌<<◌,
}

-- `bn_zero` and `bn_one`.
unfoldable pub bn_zero : List ℕ
bn_zero = replicate 9 0

unfoldable pub bn_one : List ℕ
bn_one = 1 ∷ replicate 8 0

-- `result |= a->val[i]` over all limbs.
unfoldable pub or_limbs : ℕ → List ℕ → ℕ
or_limbs result [] = result
or_limbs result (a ∷ us) = or_limbs (bit_or result a) us

-- `bn_is_zero`.
unfoldable pub bn_is_zero : List ℕ → Bool
bn_is_zero a = or_limbs 0 a == 0

-- `bn_is_even` and `bn_is_odd`.
unfoldable pub bn_is_even : List ℕ → Bool
bn_is_even a = bit_and (get_or a 0 0) 1 == 0

unfoldable pub bn_is_odd : List ℕ → Bool
bn_is_odd a = bit_and (get_or a 0 0) 1 == 1

-- `res1` and `res2` of `bn_is_less`: a bit for each limb, the highest limb first.
unfoldable pub less_bits : List ℕ → List ℕ → ℕ × ℕ
less_bits [] vs = (0, 0)
less_bits (a ∷ us) [] = (0, 0)
less_bits (a ∷ us) (b ∷ vs) =
    let (res1, res2) = less_bits us vs in
    (bit_or (u32 (res1 << 1)) (to_bit (ltb a b)), bit_or (u32 (res2 << 1)) (to_bit (ltb b a)))

-- `bn_is_less`.
unfoldable pub bn_is_less : List ℕ → List ℕ → Bool
bn_is_less a b = let (res1, res2) = less_bits a b in ltb res2 res1

-- `result |= (a->val[i] ^ b->val[i])` over all limbs.
unfoldable pub differing : ℕ → List ℕ → List ℕ → ℕ
differing result [] vs = result
differing result (a ∷ us) [] = result
differing result (a ∷ us) (b ∷ vs) = differing (bit_or result (bit_xor a b)) us vs

-- `bn_is_equal`.
unfoldable pub bn_is_equal : List ℕ → List ℕ → Bool
bn_is_equal a b = differing 0 a b == 0

-- The loop of `bn_cmov`.
unfoldable pub cmov_loop : ℕ → ℕ → List ℕ → List ℕ → List ℕ
cmov_loop tmask fmask [] vs = []
cmov_loop tmask fmask (a ∷ us) [] = []
cmov_loop tmask fmask (a ∷ us) (b ∷ vs) =
    bit_or (bit_and a tmask) (bit_and b fmask) ∷ cmov_loop tmask fmask us vs

-- `bn_cmov`: the result for `cond` 1 or 0, as its assertion demands.
unfoldable pub bn_cmov : ℕ → List ℕ → List ℕ → List ℕ
bn_cmov cond truecase falsecase =
    let tmask = neg32 cond in cmov_loop tmask (not32 tmask) truecase falsecase
