-- ===== src/Bignum/Power/Bits.antt =====
-- The loop on the bits of one limb of an exponent.
use aex_cpp_sdk.Base.{ℕ, zero, suc, ◌+◌, ◌*◌, ◌/◌, ◌%◌, ◌^◌, ◌<◌, ◌≡◌, refl, sym, ap, ◌∙◌}
use aex_cpp_sdk.Base.{arith, List, Bool, true, false, Bool-cases, inl, inr, ◌==◌, if◌then◌else◌}
use aex_cpp_sdk.Base.{mul_residue, pow_residue, pow-add, pow-mul, bit_and, bit_and-low, ◌>>◌, ◌&&◌}
use native.Mathlib.Nat.{pow-suc, pow-zero, mul_assoc, mul_comm}
use aex_cpp_sdk.Bignum.Value.{AtMost, IsPartly, IsPartly→AtMost, weaken, value}
use aex_cpp_sdk.Bignum.Reduce.FastMod.{IsPrimeSize}
use aex_cpp_sdk.Bignum.Multiply.{bn_multiply}
use aex_cpp_sdk.Bignum.Multiply.Product.{bn_multiply_bounded}
use aex_cpp_sdk.Bignum.Power.{Powers, bits_loop}

module _ (prime : List ℕ) (v : IsPrimeSize prime) where
  square_of : (x : ℕ) → x ^ 2 ≡ x * x
  square_of x = grind (arith, pow-suc x 1, pow-suc x 0, pow-zero x)

  -- Bits of an exponent: the lowest, and the others at the square.
  power_bits :
      (x y limb : ℕ)
      → y % value prime ≡ x * x % value prime
      → x ^ limb % value prime ≡ x ^ (limb % 2) * y ^ (limb / 2) % value prime
  power_bits x y limb e =
      let parts : limb ≡ limb % 2 + 2 * (limb / 2) = omega arith in
      ap (λ (k : ℕ). x ^ k % value prime) parts
      ∙ ap (λ (t : ℕ). t % value prime)
          (pow-add x (limb % 2) (2 * (limb / 2))
            ∙ ap (λ (t : ℕ). x ^ (limb % 2) * t)
                (pow-mul x 2 (limb / 2) ∙ ap (λ (t : ℕ). t ^ (limb / 2)) (square_of x)))
      ∙ mul_residue (value prime) (x ^ (limb % 2)) ((x * x) ^ (limb / 2)) (x ^ (limb % 2))
          (y ^ (limb / 2)) refl (pow_residue (value prime) (x * x) y (limb / 2) (sym e))

  -- What a run of the loop on the bits of `limb` gives.
  pub record Bits (last : Bool) (left limb : ℕ) (s t : Powers) : Type 0 where
    pub x_bound : AtMost 8 prime t.x
    pub res_partly : IsPartly prime t.res
    pub power : value t.res % value prime ≡ value s.res * value s.x ^ limb % value prime
    pub square : last ≡ false → value t.x % value prime ≡ value s.x ^ (2 ^ left) % value prime

  pub times-pow-zero : (a x n : ℕ) → n ≡ 0 → a % value prime ≡ a * x ^ n % value prime
  times-pow-zero a x n e =
      let one : x ^ n ≡ 1 = ap (λ (k : ℕ). x ^ k) e ∙ pow-zero x in
      ap (λ (t : ℕ). t % value prime) (omega arith ∙ ap (λ (t : ℕ). a * t) (sym one))

  -- The result after one bit of the exponent.
  abbrev one_bit : ℕ → Powers → List ℕ
  one_bit limb s = if bit_and limb 1 == 1 then bn_multiply s.x s.res prime else s.res

  one_bit_lem :
      (limb : ℕ) (s : Powers)
      → AtMost 8 prime s.x
      → IsPartly prime s.res
      → IsPartly prime (one_bit limb s)
        × (value (one_bit limb s) % value prime
            ≡ value s.res * value s.x ^ (limb % 2) % value prime)
  one_bit_lem limb s p q = elim (Bool-cases (bit_and limb 1 == 1)) [
    | inl odd ↦
        let m =
          bn_multiply_bounded prime v s.x s.res p (weaken (omega arith) (IsPartly→AtMost q)) in
        let one : limb % 2 ≡ 1 = ground (arith, bit_and-low 1 limb, odd) in
        let first : value s.x ^ (limb % 2) ≡ value s.x =
          ap (λ (k : ℕ). value s.x ^ k) one
          ∙ grind (arith, pow-suc (value s.x) 0, pow-zero (value s.x)) in
        rw odd (
          m.0,
          m.1
              ∙ ap (λ (t : ℕ). t % value prime)
                  (mul_comm (value s.x) (value s.res)
                    ∙ ap (λ (t : ℕ). value s.res * t) (sym first)),
        )
    | inr even ↦
        let none : limb % 2 ≡ 0 = ground (arith, bit_and-low 1 limb, even) in
        rw even (q, times-pow-zero (value s.res) (value s.x) (limb % 2) none)
  ]

  pub bits_loop-Bits :
      (last : Bool) (left limb : ℕ) (s : Powers)
      → limb < 2 ^ left
      → AtMost 8 prime s.x
      → IsPartly prime s.res
      → Bits last left limb s (bits_loop prime last left limb s)
  unfolding bits_loop
  bits_loop-Bits last zero limb s h p q = record {
    x_bound = p;
    res_partly = q;
    power = times-pow-zero (value s.res) (value s.x) limb (omega arith);
    square = λ e.
        ap (λ (t : ℕ). t % value prime)
          (grind (arith, pow-suc (value s.x) 0, pow-zero (value s.x)));
  }
  bits_loop-Bits last (suc left) limb s h p q = elim (Bool-cases (last && limb == 0)) [
    | inl stop ↦
        let none : limb ≡ 0 = ground (arith, stop) in
        let is_last : last ≡ true = ground (arith, stop) in
        rw stop (record {
          x_bound = p;
          res_partly = q;
          power = times-pow-zero (value s.res) (value s.x) limb none;
          square = λ (e : last ≡ false). cc (is_last, e);
        })
    | inr go ↦
        let x = value s.x in
        let m = bn_multiply_bounded prime v s.x s.x p p in
        let o = one_bit_lem limb s p q in
        let y = value (bn_multiply s.x s.x prime) in
        let two : 2 ^ suc left ≡ 2 * 2 ^ left = omega (arith, pow-suc 2 left) in
        let half : limb >> 1 ≡ limb / 2 = omega arith in
        let rest =
          bits_loop-Bits last left (limb >> 1)
            (record { x = bn_multiply s.x s.x prime; res = one_bit limb s }) (omega arith)
            (weaken (omega arith) (IsPartly→AtMost m.0)) o.0 in
        rw go (record {
          x_bound = rest.x_bound;
          res_partly = rest.res_partly;
          power =
              rest.power
              ∙ mul_residue (value prime) (value (one_bit limb s)) (y ^ (limb / 2))
                  (value s.res * x ^ (limb % 2)) (y ^ (limb / 2)) o.1 refl
              ∙ ap (λ (t : ℕ). t % value prime)
                  (mul_assoc (value s.res) (x ^ (limb % 2)) (y ^ (limb / 2)))
              ∙ mul_residue (value prime) (value s.res) (x ^ (limb % 2) * y ^ (limb / 2))
                  (value s.res) (x ^ limb) refl (sym (power_bits x y limb m.1));
          square = λ (e : last ≡ false).
              rest.square e
              ∙ pow_residue (value prime) y (x * x) (2 ^ left) m.1
              ∙ ap (λ (t : ℕ). t % value prime)
                  (ap (λ (t : ℕ). t ^ (2 ^ left)) (sym (square_of x))
                    ∙ sym (pow-mul x 2 (2 ^ left))
                    ∙ ap (λ (k : ℕ). x ^ k) (sym two));
        })
  ]
