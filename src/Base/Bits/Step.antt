-- ===== src/Base/Bits/Step.antt =====
-- One binary digit of `&`, `|` and `^`. The native operations recur on a count of digits that the
-- first number bounds; these laws are free of that count.
use Prim.Native.Nat.{ℕ, zero, suc, ◌+◌, ◌-◌, ◌*◌, ◌/◌, ◌%◌, ◌≤◌, ◌<◌, min, max, digits, differ}
use Prim.Native.Nat.{bit_and, bit_or, bit_xor, bit_and-bitwise, bit_or-bitwise, bit_xor-bitwise}
use mathlib.Core.Path.{◌≡◌, refl, ap, ◌∙◌}
use native.Mathlib.Omega.{arith}

module _ (z : ℕ → ℕ) (f : ℕ → ℕ → ℕ) where
  -- A round more than the first number needs changes nothing.
  one_more : (n a b : ℕ) → a ≤ n → digits z f (suc n) a b ≡ digits z f n a b
  one_more zero zero b h = refl
  one_more zero (suc a) b h = absurd (omega arith)
  one_more (suc n) zero b h = refl
  one_more (suc n) (suc a) b h = rw (one_more n (suc a / 2) (b / 2) (omega arith))

  more : (extra n m a b : ℕ) → m ≡ n + extra → a ≤ n → digits z f m a b ≡ digits z f n a b
  more zero n m a b e h = ap (λ (r : ℕ). digits z f r a b) (omega arith)
  more (suc extra) n zero a b e h = absurd (omega arith)
  more (suc extra) n (suc m) a b e h =
      one_more m a b (omega arith) ∙ more extra n m a b (omega arith) h

  -- The rounds that are left after the first one, for a number that is not zero.
  rounds_left : (a b : ℕ) → digits z f a (suc a / 2) b ≡ digits z f (suc a / 2) (suc a / 2) b
  rounds_left a b = more (a - suc a / 2) (suc a / 2) a (suc a / 2) b (omega arith) (omega arith)

pub bit_or_step : (a b : ℕ) → bit_or a b ≡ max (a % 2) (b % 2) + 2 * bit_or (a / 2) (b / 2)
bit_or_step (suc a) b =
    let now = bit_or-bitwise (suc a) b in
    let half = bit_or-bitwise (suc a / 2) (b / 2) in
    omega (arith, rounds_left (λ y. y) max a (b / 2), half, now)
bit_or_step zero b = omega (arith, bit_or-bitwise 0 (b / 2), bit_or-bitwise 0 b)

pub bit_and_step : (a b : ℕ) → bit_and a b ≡ min (a % 2) (b % 2) + 2 * bit_and (a / 2) (b / 2)
bit_and_step (suc a) b =
    let now = bit_and-bitwise (suc a) b in
    let half = bit_and-bitwise (suc a / 2) (b / 2) in
    omega (arith, rounds_left (λ y. zero) min a (b / 2), half, now)
bit_and_step zero b = omega (arith, bit_and-bitwise 0 (b / 2), bit_and-bitwise 0 b)

differ_bits : (x y : ℕ) → x < 2 → y < 2 → differ x y ≡ (x + y) % 2
differ_bits zero y p q = omega arith
differ_bits (suc zero) zero p q = refl
differ_bits (suc zero) (suc zero) p q = refl
differ_bits (suc zero) (suc (suc y)) p q = absurd (omega arith)
differ_bits (suc (suc x)) y p q = absurd (omega arith)

-- The digit of an exclusive or is the sum of the digits modulo 2.
pub bit_xor_step : (a b : ℕ) → bit_xor a b ≡ (a + b) % 2 + 2 * bit_xor (a / 2) (b / 2)
bit_xor_step (suc a) b =
    let now = bit_xor-bitwise (suc a) b in
    let half = bit_xor-bitwise (suc a / 2) (b / 2) in
    let low = differ_bits (suc a % 2) (b % 2) (omega arith) (omega arith) in
    omega (arith, rounds_left (λ y. y) differ a (b / 2), low, half, now)
bit_xor_step zero b = omega (arith, bit_xor-bitwise 0 (b / 2), bit_xor-bitwise 0 b)
