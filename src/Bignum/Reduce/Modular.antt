-- ===== src/Bignum/Reduce/Modular.antt =====
-- The operations modulo a prime between `2^256 - 2^224` and `2^256`, whose results are only partly
-- reduced.
use aex_cpp_sdk.Base.{ℕ, suc, ◌+◌, ◌-◌, ◌*◌, ◌%◌, ◌^◌, ◌≤◌, ◌<◌, ◌≡◌, refl, sym, ap, ◌∙◌}
use aex_cpp_sdk.Base.{
  arith, List, [], ◌∷◌, length, map, get_or, bit_and, All, IsU32, add_residue, u32, ◌>>◌,
}
use mathlib.Core.Path.{subst}
use native.Mathlib.Nat.{add-mul-mod_self_right}
use aex_cpp_sdk.Bignum.Value.{IsPartly, value, IsNormal, IsBignum}
use aex_cpp_sdk.Bignum.Arith.{add_loop, bn_add, sub_low, bn_subi, bn_subtractmod}
use aex_cpp_sdk.Bignum.Arith.Sums.{bn_add_lem}
use aex_cpp_sdk.Bignum.Arith.Differences.{bn_subtractmod_lem}
use aex_cpp_sdk.Bignum.Reduce.{bn_fast_mod, add_limbs, bn_addmod, bn_mult_k}
use aex_cpp_sdk.Bignum.Reduce.FastMod.{IsPrimeSize, normal-words, bn_fast_mod_lem}

-- `bn_subi` of a number of at most the lowest limb of the prime adds the prime less that number, modulo `2^270`.
pub bn_subi_lem :
    (a : List ℕ) (b : ℕ) (prime : List ℕ)
    → IsBignum a
    → IsBignum prime
    → b ≤ get_or prime 0 0
    → IsBignum (bn_subi a b prime)
      × (value (bn_subi a b prime) ≡ (value a + (value prime - b)) % 2 ^ 270)
unfolding bn_subi sub_low bn_add add_loop
bn_subi_lem [] b prime p q h = absurd (omega (arith, p.limbs))
bn_subi_lem (x ∷ us) b [] p q h = absurd (omega (arith, q.limbs))
bn_subi_lem (x ∷ us) b (l ∷ ls) p q h =
    let q' : IsBignum ((l - b) ∷ ls) = record {
      limbs = q.limbs;
      normal = (omega (arith, q.normal.0), q.normal.1);
    } in
    let r = bn_add_lem (x ∷ us) ((l - b) ∷ ls) p q' in
    let same : u32 (0 + u32 (u32 (x + 2 ^ 32 - b) + l)) ≡ u32 (0 + u32 (x + (l - b))) =
      omega (arith, p.normal.0, q.normal.0) in
    let total : value (x ∷ us) + value ((l - b) ∷ ls) ≡ value (x ∷ us) + (value (l ∷ ls) - b) =
      omega arith in
    subst
      (λ (t : ℕ).
        IsBignum (bit_and t 0x3FFFFFFF ∷ add_loop (t >> 30) us ls)
        × (value (bit_and t 0x3FFFFFFF ∷ add_loop (t >> 30) us ls)
            ≡ (value (x ∷ us) + (value (l ∷ ls) - b)) % 2 ^ 270))
      (sym same) (r.0, r.1 ∙ ap (λ (t : ℕ). t % 2 ^ 270) total)

add_limbs-value :
    (us vs : List ℕ)
    → IsNormal us
    → IsNormal vs
    → length us ≡ length vs
    → (value (add_limbs us vs) ≡ value us + value vs)
      × (length (add_limbs us vs) ≡ length us)
      × All IsU32 (add_limbs us vs)
unfolding add_limbs
add_limbs-value [] [] p q n = (refl, refl, tt)
add_limbs-value [] (v ∷ vs) p q n = absurd (omega arith)
add_limbs-value (u ∷ us) [] p q n = absurd (omega arith)
add_limbs-value (u ∷ us) (v ∷ vs) (p, ps) (q, qs) n =
    let rest = add_limbs-value us vs ps qs (omega arith) in
    (omega (arith, rest.0), ap suc rest.1, (omega arith, rest.2))

times_limbs-value :
    (k : ℕ) (us : List ℕ)
    → k ≤ 4
    → IsNormal us
    → (value (map (λ v. u32 (k * v)) us) ≡ k * value us)
      × (length (map (λ v. u32 (k * v)) us) ≡ length us)
      × All IsU32 (map (λ v. u32 (k * v)) us)
times_limbs-value k [] h p = (omega arith, refl, tt)
times_limbs-value k (u ∷ us) h (p, ps) =
    let rest = times_limbs-value k us h ps in
    let small : k * u < 2 ^ 32 = grind arith in
    let split : k * (u + 2 ^ 30 * value us) ≡ k * u + 2 ^ 30 * (k * value us) = grind arith in
    (omega (arith, rest.0, split), ap suc rest.1, (omega arith, rest.2))

-- A number that is reduced by a multiple of the prime.
fast_residue :
    (x prime : List ℕ)
    → IsPrimeSize prime
    → length x ≡ 9
    → All IsU32 x
    → IsPartly prime (bn_fast_mod x prime)
      × (value (bn_fast_mod x prime) % value prime ≡ value x % value prime)
fast_residue x prime v nine words =
    let r = bn_fast_mod_lem x prime nine words v in
    (
      record { bignum = r.0; partly = r.2 },
      sym (add-mul-mod_self_right (value (bn_fast_mod x prime)) (get_or x 8 0 >> 16) (value prime))
          ∙ ap (λ (t : ℕ). t % value prime) r.1,
    )

-- `bn_addmod` of normalized numbers is partly reduced, with the residue of the sum.
pub bn_addmod_lem :
    (a b prime : List ℕ)
    → IsPrimeSize prime
    → IsBignum a
    → IsBignum b
    → IsPartly prime (bn_addmod a b prime)
      × (value (bn_addmod a b prime) % value prime ≡ (value a + value b) % value prime)
unfolding bn_addmod
bn_addmod_lem a b prime v p q =
    let s = add_limbs-value a b p.normal q.normal (p.limbs ∙ sym q.limbs) in
    let r = fast_residue (add_limbs a b) prime v (s.1 ∙ p.limbs) s.2 in
    (r.0, r.1 ∙ ap (λ (t : ℕ). t % value prime) s.0)

-- `bn_mult_k` of a normalized number by at most 4 is partly reduced, with the residue of the product.
pub bn_mult_k_lem :
    (x : List ℕ) (k : ℕ) (prime : List ℕ)
    → IsPrimeSize prime
    → IsBignum x
    → k ≤ 4
    → IsPartly prime (bn_mult_k x k prime)
      × (value (bn_mult_k x k prime) % value prime ≡ k * value x % value prime)
unfolding bn_mult_k
bn_mult_k_lem x k prime v p h =
    let s = times_limbs-value k x h p.normal in
    let r = fast_residue (map (λ v. u32 (k * v)) x) prime v (s.1 ∙ p.limbs) s.2 in
    (r.0, r.1 ∙ ap (λ (t : ℕ). t % value prime) s.0)

-- The difference of a partly reduced number from another, reduced again.
pub difference_lem :
    (a b prime : List ℕ)
    → IsPrimeSize prime
    → IsPartly prime a
    → IsPartly prime b
    → IsPartly prime (bn_fast_mod (bn_subtractmod a b prime) prime)
      × ((value (bn_fast_mod (bn_subtractmod a b prime) prime) + value b) % value prime
          ≡ value a % value prime)
difference_lem a b prime v p q =
    let s =
      bn_subtractmod_lem a b prime p.bignum q.bignum v.bignum (omega (arith, q.partly))
        (omega (arith, p.partly, v.below)) in
    let r =
      fast_residue (bn_subtractmod a b prime) prime v s.0.limbs
        (normal-words (bn_subtractmod a b prime) s.0.normal) in
    let whole : value (bn_subtractmod a b prime) + value b ≡ value a + 2 * value prime =
      omega (arith, s.1, q.partly) in
    (
      r.0,
      add_residue (value prime) (value (bn_fast_mod (bn_subtractmod a b prime) prime)) (value b)
            (value (bn_subtractmod a b prime)) (value b) r.1 refl
          ∙ ap (λ (t : ℕ). t % value prime) whole
          ∙ add-mul-mod_self_right (value a) 2 (value prime),
    )
