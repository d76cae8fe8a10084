-- ===== src/Bignum/Reduce/Submul.antt =====
-- The loop that subtracts a multiple of the prime, exactly.
use aex_cpp_sdk.Base.{ℕ, suc, ◌+◌, ◌-◌, ◌*◌, ◌/◌, ◌^◌, ◌≤◌, ◌<◌, ◌≡◌, refl, ap}
use aex_cpp_sdk.Base.{arith, List, [], ◌∷◌, length, All, bit_and-low, u64, ◌>>◌, IsU32}
use aex_cpp_sdk.Bignum.Value.{value, radix, radix-pos, IsNormal}
use aex_cpp_sdk.Bignum.Arith.Sums.{limb-lt}
use aex_cpp_sdk.Bignum.Reduce.{submul_loop, submul}

-- The product of a limb and a coefficient of 31 bits leaves room below the constant.
product-le : (p coef : ℕ) → p < 2 ^ 30 → coef < 2 ^ 31 → p * coef ≤ (2 ^ 30 - 1) * (2 ^ 31 - 1)
product-le p coef h k = grind arith

-- One round: what is stored, and a carry that stays near `2^31`.
round :
    (c x q : ℕ)
    → c < 2 ^ 32
    → x < 2 ^ 32
    → q ≤ (2 ^ 30 - 1) * (2 ^ 31 - 1)
    → let t = u64 (c + (0x1FFFFFFF80000000 + x + 2 ^ 64 - u64 q)) in
      (t + q ≡ c + 0x1FFFFFFF80000000 + x) × (t / 2 ^ 30 < 2 ^ 32)
round c x q hc hx hq = omega arith

-- What the loop writes, with the carry out above it, is `x - coef * prime` and the constants.
pub submul_loop-value :
    (coef temp : ℕ) (us ps : List ℕ)
    → coef < 2 ^ 31
    → temp / 2 ^ 30 < 2 ^ 32
    → All IsU32 us
    → IsNormal ps
    → length us ≡ length ps
    → let out = submul_loop coef temp us ps in
      (value out.0 + radix (length us) * (out.1 / 2 ^ 30) + coef * value ps
        ≡ temp / 2 ^ 30 + 2 ^ 31 * (radix (length us) - 1) + value us)
      × IsNormal out.0
      × (length out.0 ≡ length us)
      × (out.1 / 2 ^ 30 < 2 ^ 32)
unfolding submul_loop
submul_loop-value coef temp [] [] hc ht hu hp n = (omega arith, tt, refl, ht)
submul_loop-value coef temp [] (p ∷ ps) hc ht hu hp n = absurd (omega arith)
submul_loop-value coef temp (u ∷ us) [] hc ht hu hp n = absurd (omega arith)
submul_loop-value coef temp (u ∷ us) (p ∷ ps) hc ht (hu, hus) (hp, hps) n =
    let rest = submul_loop-value coef t us ps hc step.1 hus hps (omega arith) in
    (
      omega (arith, rest.0, step.0, bit_and-low 30 t, radix-pos (length us)),
      (limb-lt t, rest.1),
      ap suc rest.2,
      rest.3,
    )
  where
    t : ℕ
    t = u64 ((temp >> 30) + (0x1FFFFFFF80000000 + u + 2 ^ 64 - u64 (p * coef)))

    step : (t + p * coef ≡ temp / 2 ^ 30 + 0x1FFFFFFF80000000 + u) × (t / 2 ^ 30 < 2 ^ 32)
    step = round (temp / 2 ^ 30) u (p * coef) ht hu (product-le p coef hp hc)

-- The first round starts as if a carry of `2^31` came in.
pub submul-value :
    (coef : ℕ) (us ps : List ℕ)
    → coef < 2 ^ 31
    → All IsU32 us
    → IsNormal ps
    → length us ≡ length ps
    → 0 < length us
    → let out = submul coef us ps in
      (value out.0 + radix (length us) * (out.1 / 2 ^ 30) + coef * value ps
        ≡ 2 ^ 31 * radix (length us) + value us)
      × IsNormal out.0
      × (length out.0 ≡ length us)
      × (out.1 / 2 ^ 30 < 2 ^ 32)
unfolding submul
submul-value coef [] ps hc hu hp n pos = absurd (omega arith)
submul-value coef (u ∷ us) [] hc hu hp n pos = absurd (omega arith)
submul-value coef (u ∷ us) (p ∷ ps) hc (hu, hus) (hp, hps) n pos =
    let rest = submul_loop-value coef t us ps hc step.1 hus hps (omega arith) in
    (
      omega (arith, rest.0, step.0, bit_and-low 30 t, radix-pos (length us)),
      (limb-lt t, rest.1),
      ap suc rest.2,
      rest.3,
    )
  where
    t : ℕ
    t = u64 (0x2000000000000000 + u + 2 ^ 64 - u64 (p * coef))

    step : (t + p * coef ≡ 2 ^ 31 + 0x1FFFFFFF80000000 + u) × (t / 2 ^ 30 < 2 ^ 32)
    step = omega (arith, product-le p coef hp hc)
