-- ===== src/Bignum/Multiples.antt =====
-- Numbers up to small multiples of the prime, which the formulas on curve points go through.
use aex_cpp_sdk.Base.{
  ℕ, ◌-◌, ◌*◌, ◌%◌, ◌^◌, ◌≤◌, ◌<◌, ◌≡◌, sym, ◌∙◌, arith, List, Bool, true, false, to_bit,
  if◌then◌else◌, get_or,
}
use mathlib.Core.Path.{subst}
use native.Mathlib.Nat.{mod-lt}
use aex_cpp_sdk.Bignum.Value.{value, IsBignum, AtMost, IsPartly, Reduced, weaken, IsPartly→AtMost}
use aex_cpp_sdk.Bignum.Compare.{bn_cmov}
use aex_cpp_sdk.Bignum.Compare.Tests.{bn_cmov_lem}
use aex_cpp_sdk.Bignum.Arith.{bn_add, bn_subi, bn_subtractmod}
use aex_cpp_sdk.Bignum.Arith.Sums.{bn_add_lem}
use aex_cpp_sdk.Bignum.Arith.Differences.{bn_subtractmod_lem}
use aex_cpp_sdk.Bignum.Shift.{bn_lshift, bn_mult_half}
use aex_cpp_sdk.Bignum.Shift.Halving.{bn_lshift_lem, bn_mult_half_lem}
use aex_cpp_sdk.Bignum.Reduce.{bn_fast_mod, bn_mod, bn_addmod, bn_mult_k}
use aex_cpp_sdk.Bignum.Reduce.FastMod.{IsPrimeSize, normal-words, bn_fast_mod_lem, bn_mod_lem}
use aex_cpp_sdk.Bignum.Reduce.Modular.{bn_subi_lem, bn_addmod_lem, bn_mult_k_lem}
use aex_cpp_sdk.Bignum.Multiply.{bn_multiply}
use aex_cpp_sdk.Bignum.Power.{bn_inverse}
use aex_cpp_sdk.Bignum.Power.Exponent.{bn_inverse_lem}
use aex_cpp_sdk.Bignum.Multiply.Product.{bn_multiply_bounded}

module _ (prime : List ℕ) (v : IsPrimeSize prime) where
  -- A product of numbers of at most eight times the prime.
  pub multiply-IsPartly :
      {a b : List ℕ} → AtMost 8 prime a → AtMost 8 prime b → IsPartly prime (bn_multiply a b prime)
  multiply-IsPartly {a} {b} p q = (bn_multiply_bounded prime v a b p q).0

  pub multiply-AtMost :
      {a b : List ℕ} → AtMost 8 prime a → AtMost 8 prime b → AtMost 2 prime (bn_multiply a b prime)
  multiply-AtMost p q = IsPartly→AtMost (multiply-IsPartly p q)

  -- The same for numbers of smaller bounds.
  pub times :
      {k m : ℕ} {a b : List ℕ}
      → k ≤ 8
      → m ≤ 8
      → AtMost k prime a
      → AtMost m prime b
      → AtMost 2 prime (bn_multiply a b prime)
  times h h' p q = multiply-AtMost (weaken h p) (weaken h' q)

  pub add-AtMost :
      {a b : List ℕ} → AtMost 2 prime a → AtMost 2 prime b → AtMost 8 prime (bn_add a b)
  add-AtMost {a} {b} p q =
      let s = bn_add_lem a b p.bignum q.bignum in
      record { bignum = s.0; bound = omega (arith, s.1, p.bound, q.bound, v.below) }

  pub fast_mod-IsPartly : {a : List ℕ} → IsBignum a → IsPartly prime (bn_fast_mod a prime)
  fast_mod-IsPartly {a} p =
      let r = bn_fast_mod_lem a prime p.limbs (normal-words a p.normal) v in
      record { bignum = r.0; partly = r.2 }

  pub fast_mod-AtMost : {a : List ℕ} → IsBignum a → AtMost 2 prime (bn_fast_mod a prime)
  fast_mod-AtMost p = IsPartly→AtMost (fast_mod-IsPartly p)

  pub mult_k-AtMost :
      {a : List ℕ} (k : ℕ) → k ≤ 4 → IsBignum a → AtMost 2 prime (bn_mult_k a k prime)
  mult_k-AtMost {a} k h p = IsPartly→AtMost (bn_mult_k_lem a k prime v p h).0

  pub addmod-AtMost :
      {a b : List ℕ} → IsBignum a → IsBignum b → AtMost 2 prime (bn_addmod a b prime)
  addmod-AtMost {a} {b} p q = IsPartly→AtMost (bn_addmod_lem a b prime v p q).0

  pub lshift-AtMost : {a : List ℕ} → AtMost 2 prime a → AtMost 4 prime (bn_lshift a)
  lshift-AtMost {a} p =
      let s = bn_lshift_lem a p.bignum in
      record { bignum = s.0; bound = omega (arith, s.1, p.bound, v.below) }

  pub half-AtMost :
      {a : List ℕ} → value prime % 2 ≡ 1 → AtMost 4 prime a → AtMost 4 prime (bn_mult_half a prime)
  half-AtMost {a} odd p =
      let s = bn_mult_half_lem a prime p.bignum v.bignum odd (omega (arith, p.bound, v.below)) in
      let few : value a % 2 * value prime ≤ value prime =
        at_most (value a % 2) (value prime) (omega arith) in
      record { bignum = s.0; bound = omega (arith, s.1, p.bound, few) }
    where
      at_most : (e n : ℕ) → e ≤ 1 → e * n ≤ n
      at_most e n h = grind arith

  pub cmov-AtMost :
      {a b : List ℕ} {m : ℕ} (c : Bool)
      → AtMost m prime a
      → AtMost m prime b
      → AtMost m prime (bn_cmov (to_bit c) a b)
  cmov-AtMost {a} {b} {m} c p q =
      let choice =
        bn_cmov_lem c a b (p.bignum.limbs ∙ sym q.bignum.limbs) (normal-words a p.bignum.normal)
          (normal-words b q.bignum.normal) in
      subst (AtMost m prime) (sym choice) (chosen c)
    where
      chosen : (c : Bool) → AtMost m prime (if c then a else b)
      chosen true = p
      chosen false = q

  pub subtractmod-AtMost :
      {a b : List ℕ}
      → AtMost 6 prime a
      → AtMost 2 prime b
      → AtMost 8 prime (bn_subtractmod a b prime)
  subtractmod-AtMost {a} {b} p q =
      let s =
        bn_subtractmod_lem a b prime p.bignum q.bignum v.bignum q.bound
          (omega (arith, p.bound, v.below)) in
      record { bignum = s.0; bound = omega (arith, s.1, p.bound) }

  -- The difference of two numbers that are at most twice the prime.
  pub difference-AtMost :
      {a b : List ℕ}
      → AtMost 2 prime a
      → AtMost 2 prime b
      → AtMost 4 prime (bn_subtractmod a b prime)
  difference-AtMost {a} {b} p q =
      let s =
        bn_subtractmod_lem a b prime p.bignum q.bignum v.bignum q.bound
          (omega (arith, p.bound, v.below)) in
      record { bignum = s.0; bound = omega (arith, s.1, p.bound) }

  pub subi-AtMost :
      {a : List ℕ} (b : ℕ)
      → b ≤ get_or prime 0 0
      → AtMost 2 prime a
      → AtMost 3 prime (bn_subi a b prime)
  subi-AtMost {a} b h p =
      let s = bn_subi_lem a b prime p.bignum v.bignum h in
      record { bignum = s.0; bound = omega (arith, s.1, p.bound, v.below) }

  pub mod-Reduced : {a : List ℕ} → IsPartly prime a → Reduced prime (bn_mod a prime)
  mod-Reduced {a} p =
      let m = bn_mod_lem a prime p.bignum v.bignum p.partly in
      let pos : 0 < value prime = omega (arith, v.above) in
      record { bignum = m.0; less = omega (arith, m.1, mod-lt (value a) pos) }

  pub inverse-Reduced :
      {a : List ℕ} → 2 ≤ get_or prime 0 0 → AtMost 8 prime a → Reduced prime (bn_inverse a prime)
  inverse-Reduced {a} h p =
      let e = bn_inverse_lem a prime v h p in
      let pos : 0 < value prime = omega (arith, v.above) in
      record { bignum = e.0; less = omega (arith, e.1, mod-lt (value a ^ (value prime - 2)) pos) }
