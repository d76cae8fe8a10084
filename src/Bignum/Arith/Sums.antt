-- ===== src/Bignum/Arith/Sums.antt =====
-- `bn_add` and `bn_addi` add, modulo `2^270`.
use aex_cpp_sdk.Base.{ℕ, suc, ◌+◌, ◌*◌, ◌/◌, ◌%◌, ◌^◌, ◌<◌, ◌≡◌, refl, sym, ap, ◌∙◌}
use aex_cpp_sdk.Base.{arith, List, [], ◌∷◌, length, All, bit_and, bit_and-low, u32, ◌>>◌}
use aex_cpp_sdk.Bignum.Value.{value, radix, radix-pos, IsNormal, IsBignum, mod-limb}
use aex_cpp_sdk.Bignum.Arith.{add_loop, bn_add, addi_loop, bn_addi}

-- One limb of any of the loops: the low 30 bits are stored and the rest is the carry.
pub limb-value :
    (m t total : ℕ) {rest carry whole : ℕ}
    → 0 < m
    → rest ≡ carry % m
    → carry ≡ t / 2 ^ 30 + total
    → whole ≡ t + 2 ^ 30 * total
    → bit_and t 0x3FFFFFFF + 2 ^ 30 * rest ≡ whole % (2 ^ 30 * m)
limb-value m t total pos e c w = omega (
  arith,
  mod-limb m t total pos,
  bit_and-low 30 t,
  e ∙ ap (λ (y : ℕ). y % m) c,
  ap (λ (y : ℕ). y % (2 ^ 30 * m)) w,
)

pub limb-lt : (t : ℕ) → bit_and t 0x3FFFFFFF < 2 ^ 30
limb-lt t = omega (arith, bit_and-low 30 t)

add_loop-value :
    (t : ℕ) (us vs : List ℕ)
    → t < 2 ^ 30
    → IsNormal us
    → IsNormal vs
    → length us ≡ length vs
    → value (add_loop t us vs) ≡ (t + value us + value vs) % radix (length us)
unfolding add_loop
add_loop-value t [] [] small p q n = omega arith
add_loop-value t [] (v ∷ vs) small p q n = absurd (omega arith)
add_loop-value t (u ∷ us) [] small p q n = absurd (omega arith)
add_loop-value t (u ∷ us) (v ∷ vs) small (p, ps) (q, qs) n =
    limb-value (radix (length us)) x (value us + value vs) (radix-pos (length us))
      (add_loop-value (x >> 30) us vs (omega arith) ps qs (omega arith)) (omega arith) (omega arith)
  where
    x : ℕ
    x = u32 (t + u32 (u + v))

add_loop-IsNormal :
    (t : ℕ) (us vs : List ℕ)
    → length us ≡ length vs
    → IsNormal (add_loop t us vs) × (length (add_loop t us vs) ≡ length us)
unfolding add_loop
add_loop-IsNormal t [] vs n = (tt, refl)
add_loop-IsNormal t (u ∷ us) [] n = absurd (omega arith)
add_loop-IsNormal t (u ∷ us) (v ∷ vs) n =
    let rest = add_loop-IsNormal (u32 (t + u32 (u + v)) >> 30) us vs (omega arith) in
    ((limb-lt _, rest.0), ap suc rest.1)

addi_loop-value :
    (t : ℕ) (us : List ℕ)
    → t < 2 ^ 31
    → All (λ x. x < 2 ^ 31) us
    → value (addi_loop t us) ≡ (t + value us) % radix (length us)
unfolding addi_loop
addi_loop-value t [] small p = omega arith
addi_loop-value t (u ∷ us) small (p, ps) =
    limb-value (radix (length us)) x (value us) (radix-pos (length us))
      (addi_loop-value (x >> 30) us (omega arith) ps) (omega arith) (omega arith)
  where
    x : ℕ
    x = u32 (t + u)

addi_loop-IsNormal :
    (t : ℕ) (us : List ℕ) → IsNormal (addi_loop t us) × (length (addi_loop t us) ≡ length us)
unfolding addi_loop
addi_loop-IsNormal t [] = (tt, refl)
addi_loop-IsNormal t (u ∷ us) =
    let rest = addi_loop-IsNormal (u32 (t + u) >> 30) us in ((limb-lt _, rest.0), ap suc rest.1)

-- `bn_add` of normalized numbers is their normalized sum modulo `2^270`.
pub bn_add_lem :
    (a b : List ℕ)
    → IsBignum a
    → IsBignum b
    → IsBignum (bn_add a b) × (value (bn_add a b) ≡ (value a + value b) % 2 ^ 270)
unfolding bn_add
bn_add_lem a b p q =
    let same : length a ≡ length b = p.limbs ∙ sym q.limbs in
    let shape = add_loop-IsNormal 0 a b same in
    (
      record { limbs = shape.1 ∙ p.limbs; normal = shape.0 },
      add_loop-value 0 a b (omega arith) p.normal q.normal same
          ∙ ap (λ (n : ℕ). (0 + value a + value b) % radix n) p.limbs
          ∙ omega arith,
    )

-- `bn_addi` of a number below `2^31` to nine limbs below `2^31`, normalized or not, is the
-- normalized sum modulo `2^270`.
pub bn_addi_lem :
    (a : List ℕ) (b : ℕ)
    → length a ≡ 9
    → All (λ x. x < 2 ^ 31) a
    → b < 2 ^ 31
    → IsBignum (bn_addi a b) × (value (bn_addi a b) ≡ (b + value a) % 2 ^ 270)
unfolding bn_addi
bn_addi_lem a b nine p small =
    let shape = addi_loop-IsNormal b a in
    (
      record { limbs = shape.1 ∙ nine; normal = shape.0 },
      addi_loop-value b a small p ∙ ap (λ (n : ℕ). (b + value a) % radix n) nine,
    )
