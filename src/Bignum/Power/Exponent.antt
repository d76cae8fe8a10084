-- ===== src/Bignum/Power/Exponent.antt =====
-- The loops of `bn_inverse` and `bn_sqrt` compute a power modulo the prime.
use aex_cpp_sdk.Base.{ℕ, ◌+◌, ◌-◌, ◌*◌, ◌/◌, ◌%◌, ◌^◌, ◌≤◌, ◌<◌, ◌≡◌, refl, sym, ap, ◌∙◌}
use aex_cpp_sdk.Base.{arith, List, [], ◌∷◌, length, All, false, ◌==◌}
use aex_cpp_sdk.Base.{mul_residue, pow_residue, pow-add, pow-mul, get_or}
use native.Mathlib.Nat.{mul_assoc}
use aex_cpp_sdk.Bignum.Value.{AtMost, IsPartly, value, IsNormal, IsBignum}
use aex_cpp_sdk.Bignum.Reduce.{bn_mod}
use aex_cpp_sdk.Bignum.Reduce.FastMod.{IsPrimeSize, bn_mod_lem}
use aex_cpp_sdk.Bignum.Power.{Powers, bits_loop, limbs_loop, minus_two, bn_inverse, bn_sqrt}
use aex_cpp_sdk.Bignum.Compare.{bn_one}
use aex_cpp_sdk.Bignum.Shift.{bn_rshift}
use aex_cpp_sdk.Bignum.Shift.Values.{bn_rshift-value}
use aex_cpp_sdk.Bignum.Arith.{bn_addi}
use aex_cpp_sdk.Bignum.Arith.Sums.{bn_addi_lem}
use aex_cpp_sdk.Bignum.Power.Bits.{times-pow-zero, bits_loop-Bits}

module _ (prime : List ℕ) (v : IsPrimeSize prime) where
  limbs_loop-power :
      (i : ℕ) (limbs : List ℕ) (s : Powers)
      → i + length limbs ≡ 9
      → IsNormal limbs
      → AtMost 8 prime s.x
      → IsPartly prime s.res
      → IsPartly prime (limbs_loop prime i limbs s).res
        × (value (limbs_loop prime i limbs s).res % value prime
            ≡ value s.res * value s.x ^ value limbs % value prime)
  unfolding limbs_loop
  limbs_loop-power i [] s n h p q = (q, times-pow-zero prime v (value s.res) (value s.x) 0 refl)
  limbs_loop-power i (limb ∷ []) s n (h, hs) p q =
      let b = bits_loop-Bits prime v (i == 8) 30 limb s h p q in
      (
        b.res_partly,
        b.power ∙ ap (λ (k : ℕ). value s.res * value s.x ^ k % value prime) (one_limb limb),
      )
    where
      one_limb : (limb : ℕ) → limb ≡ limb + 2 ^ 30 * 0
      one_limb limb = omega arith
  limbs_loop-power i (limb ∷ l ∷ limbs) s n (h, hs) p q =
      let b = bits_loop-Bits prime v (i == 8) 30 limb s h p q in
      let t = bits_loop prime (i == 8) 30 limb s in
      let before : (i == 8) ≡ false = ground arith in
      let rest = limbs_loop-power (i + 1) (l ∷ limbs) t (omega arith) hs b.x_bound b.res_partly in
      let x = value s.x in
      let high = value (l ∷ limbs) in
      (
        rest.0,
        rest.1
            ∙ mul_residue (value prime) (value t.res) (value t.x ^ high) (value s.res * x ^ limb)
                (x ^ (2 ^ 30 * high)) b.power
                (pow_residue (value prime) (value t.x) (x ^ (2 ^ 30)) high (b.square before)
                  ∙ ap (λ (u : ℕ). u % value prime) (sym (pow-mul x (2 ^ 30) high)))
            ∙ ap (λ (u : ℕ). u % value prime)
                (mul_assoc (value s.res) (x ^ limb) (x ^ (2 ^ 30 * high))
                  ∙ ap (λ (u : ℕ). value s.res * u) (sym (pow-add x limb (2 ^ 30 * high)))),
      )

  one-IsPartly : IsPartly prime bn_one
  unfolding bn_one
  one-IsPartly = record {
    bignum = record { limbs = refl; normal = omega arith };
    partly = omega (arith, v.above);
  }

  -- The loops from the result 1, and the last reduction.
  power_mod :
      (limbs x : List ℕ)
      → IsBignum limbs
      → AtMost 8 prime x
      → let out = bn_mod (limbs_loop prime 0 limbs (record { x = x; res = bn_one })).res prime in
        IsBignum out × (value out ≡ value x ^ value limbs % value prime)
  unfolding bn_one
  power_mod limbs x p q =
      let loop =
        limbs_loop-power 0 limbs (record { x = x; res = bn_one }) (omega (arith, p.limbs)) p.normal
          q one-IsPartly in
      let out = (limbs_loop prime 0 limbs (record { x = x; res = bn_one })).res in
      let m = bn_mod_lem out prime loop.0.bignum v.bignum loop.0.partly in
      (m.0, m.1 ∙ loop.1 ∙ ap (λ (t : ℕ). t % value prime) (one_times (value x ^ value limbs)))
    where
      one_times : (n : ℕ) → (1 + 2 ^ 30 * 0) * n ≡ n
      one_times n = omega arith

minus_two-value :
    (prime : List ℕ)
    → IsBignum prime
    → 2 ≤ get_or prime 0 0
    → IsBignum (minus_two prime) × (value (minus_two prime) ≡ value prime - 2)
unfolding minus_two
minus_two-value [] p h = absurd (omega (arith, p.limbs))
minus_two-value (l ∷ ls) p h = (
  record { limbs = p.limbs; normal = (omega (arith, p.normal.0), p.normal.1) },
  omega (arith, p.normal.0),
)

normal-31 : (us : List ℕ) → IsNormal us → All (λ u. u < 2 ^ 31) us
normal-31 [] h = tt
normal-31 (u ∷ us) (h, hs) = (omega arith, normal-31 us hs)

-- `bn_inverse` of a normalized number of at most eight times the prime is the normalized residue
-- of its power with the exponent `prime - 2`, for a prime between `2^256 - 2^224` and `2^256`
-- whose lowest limb is at least 2.
pub bn_inverse_lem :
    (x prime : List ℕ)
    → IsPrimeSize prime
    → 2 ≤ get_or prime 0 0
    → AtMost 8 prime x
    → IsBignum (bn_inverse x prime)
      × (value (bn_inverse x prime) ≡ value x ^ (value prime - 2) % value prime)
unfolding bn_inverse
bn_inverse_lem x prime v h p =
    let e = minus_two-value prime v.bignum h in
    let m = power_mod prime v (minus_two prime) x e.0 p in
    (m.0, m.1 ∙ ap (λ (k : ℕ). value x ^ k % value prime) e.1)

-- `bn_sqrt` of a normalized number of at most eight times the prime is the normalized residue of
-- its power with the exponent `(prime + 1) / 4`, for a prime between `2^256 - 2^224` and `2^256`.
pub bn_sqrt_lem :
    (x prime : List ℕ)
    → IsPrimeSize prime
    → AtMost 8 prime x
    → IsBignum (bn_sqrt x prime)
      × (value (bn_sqrt x prime) ≡ value x ^ ((value prime + 1) / 4) % value prime)
unfolding bn_sqrt
bn_sqrt_lem x prime v p =
    let a = bn_addi_lem prime 1 v.bignum.limbs (normal-31 prime v.bignum.normal) (omega arith) in
    let b = bn_rshift-value (bn_addi prime 1) a.0 in
    let c = bn_rshift-value (bn_rshift (bn_addi prime 1)) b.0 in
    let m = power_mod prime v (bn_rshift (bn_rshift (bn_addi prime 1))) x c.0 p in
    let e : value (bn_rshift (bn_rshift (bn_addi prime 1))) ≡ (value prime + 1) / 4 =
      omega (arith, a.1, b.1, c.1, v.below) in
    (m.0, m.1 ∙ ap (λ (k : ℕ). value x ^ k % value prime) e)
