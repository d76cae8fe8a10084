-- ===== src/Base/Bits/Fields.antt =====
-- `&` with a low mask and `|` of disjoint fields, as arithmetic, at every width.
use Prim.Native.Nat.{ℕ, zero, suc, ◌+◌, ◌-◌, ◌*◌, ◌/◌, ◌%◌, ◌^◌, ◌<◌, ◌≤◌, bit_and, bit_or}
use mathlib.Core.Path.{◌≡◌, refl, sym, ap, ap₂, ◌∙◌}
use native.Mathlib.Omega.{arith}
use native.Mathlib.Nat.{
  pow-suc, one-le-pow, mul_comm, div-div-eq-div-mul, div-add-mod', div-eq_of_lt-le,
}
use aex_cpp_sdk.Base.Bits.Step.{bit_and_step, bit_or_step}

bit_and-zero_below : (n a : ℕ) → a ≤ n → bit_and a 0 ≡ 0
bit_and-zero_below zero a h = omega (arith, bit_and_step a 0, ap (λ (t : ℕ). bit_and t 0) low)
  where
    low : a / 2 ≡ 0
    low = omega arith
bit_and-zero_below (suc n) a h =
    omega (arith, bit_and_step a 0, bit_and-zero_below n (a / 2) (omega arith))

pub bit_and-zero : (a : ℕ) → bit_and a 0 ≡ 0
bit_and-zero a = bit_and-zero_below a a (omega arith)

-- Division and remainder by a power of two, one digit at a time.
pub div-two-pow-suc : (k a : ℕ) → a / 2 ^ suc k ≡ a / 2 / 2 ^ k
div-two-pow-suc k a =
    ap (λ (t : ℕ). a / t) (pow-suc 2 k ∙ mul_comm (2 ^ k) 2) ∙ sym (div-div-eq-div-mul a 2 (2 ^ k))

pub mul-two-pow-suc : (k q : ℕ) → q * 2 ^ suc k ≡ q * 2 ^ k * 2
mul-two-pow-suc k q = omega (arith, ap (λ (t : ℕ). q * t) (pow-suc 2 k))

pub mod-two-pow-suc : (k a : ℕ) → a % 2 ^ suc k ≡ a / 2 % 2 ^ k * 2 + a % 2
mod-two-pow-suc k a = omega (
  arith,
  div-add-mod' a (2 ^ suc k),
  div-add-mod' (a / 2) (2 ^ k),
  mul-two-pow-suc k (a / 2 ^ suc k),
  ap (λ (t : ℕ). t * 2 ^ k) (div-two-pow-suc k a),
)

-- `a & (2^k - 1)` is the remainder by `2^k`.
pub bit_and-low : (k a : ℕ) → bit_and a (2 ^ k - 1) ≡ a % 2 ^ k
bit_and-low zero a = omega (arith, bit_and-zero a)
bit_and-low (suc k) a = omega (
  arith,
  bit_and_step a (2 ^ suc k - 1),
  ap (bit_and (a / 2)) half,
  bit_and-low k (a / 2),
  mod-two-pow-suc k a,
  pow-suc 2 k,
  one-le-pow k 2 (omega arith),
)
  where
    half : (2 ^ suc k - 1) / 2 ≡ 2 ^ k - 1
    half = omega (arith, pow-suc 2 k)

pub fields-div : (k q r : ℕ) → r < 2 ^ k → (q * 2 ^ k + r) / 2 ^ k ≡ q
fields-div k q r h = div-eq_of_lt-le (2 ^ k) (omega arith) (grind arith)

pub fields-mod : (k q r : ℕ) → r < 2 ^ k → (q * 2 ^ k + r) % 2 ^ k ≡ r
fields-mod k q r h =
    omega
      (arith, div-add-mod' (q * 2 ^ k + r) (2 ^ k), ap (λ (t : ℕ). t * 2 ^ k) (fields-div k q r h))

bit_or-zero_below : (n a : ℕ) → a ≤ n → bit_or a 0 ≡ a
bit_or-zero_below zero a h = ap (λ (t : ℕ). bit_or t 0) none_left ∙ sym none_left
  where
    none_left : a ≡ 0
    none_left = omega arith
bit_or-zero_below (suc n) zero h = refl
bit_or-zero_below (suc n) (suc a) h =
    omega (arith, bit_or_step (suc a) 0, bit_or-zero_below n (suc a / 2) (omega arith))

pub bit_or-zero : (a : ℕ) → bit_or a 0 ≡ a
bit_or-zero a = bit_or-zero_below a a (omega arith)

-- `(q << k) | r` is a sum when `r` fits in `k` bits.
pub bit_or-fields : (k q r : ℕ) → r < 2 ^ k → bit_or (q * 2 ^ k) r ≡ q * 2 ^ k + r
bit_or-fields zero q r h = ap (bit_or (q * 1)) none_left ∙ bit_or-zero (q * 1) ∙ omega arith
  where
    none_left : r ≡ 0
    none_left = omega arith
bit_or-fields (suc k) q r h = omega (
  arith,
  bit_or_step (q * 2 ^ suc k) r,
  ap (λ (t : ℕ). bit_or t (r / 2)) half,
  bit_or-fields k q (r / 2) (omega (arith, pow-suc 2 k)),
  mul-two-pow-suc k q,
)
  where
    half : q * 2 ^ suc k / 2 ≡ q * 2 ^ k
    half = omega (arith, mul-two-pow-suc k q)

bit_or_comm_below : (n a b : ℕ) → a ≤ n → b ≤ n → bit_or a b ≡ bit_or b a
bit_or_comm_below zero zero zero p q = refl
bit_or_comm_below zero zero (suc b) p q = absurd (omega arith)
bit_or_comm_below zero (suc a) b p q = absurd (omega arith)
bit_or_comm_below (suc n) a b p q = omega (
  arith,
  bit_or_step a b,
  bit_or_step b a,
  bit_or_comm_below n (a / 2) (b / 2) (omega arith) (omega arith),
)

pub bit_or_comm : (a b : ℕ) → bit_or a b ≡ bit_or b a
bit_or_comm a b = bit_or_comm_below (a + b) a b (omega arith) (omega arith)

-- `r | (q << k)`.
pub fields-bit_or : (k q r : ℕ) → r < 2 ^ k → bit_or r (q * 2 ^ k) ≡ q * 2 ^ k + r
fields-bit_or k q r h = bit_or_comm r (q * 2 ^ k) ∙ bit_or-fields k q r h

bit_and-le_below : (n a b : ℕ) → b ≤ n → bit_and a b ≤ b
bit_and-le_below zero a zero h = omega (arith, bit_and-zero a)
bit_and-le_below zero a (suc b) h = absurd (omega arith)
bit_and-le_below (suc n) a zero h = omega (arith, bit_and-zero a)
bit_and-le_below (suc n) a (suc b) h =
    omega (arith, bit_and_step a (suc b), bit_and-le_below n (a / 2) (suc b / 2) (omega arith))

-- Masking does not exceed the mask.
pub bit_and-le : (a b : ℕ) → bit_and a b ≤ b
bit_and-le a b = bit_and-le_below b a b (omega arith)

bit_or-ge_below : (n a b : ℕ) → a ≤ n → a ≤ bit_or a b
bit_or-ge_below zero zero b h = omega arith
bit_or-ge_below zero (suc a) b h = absurd (omega arith)
bit_or-ge_below (suc n) zero b h = omega arith
bit_or-ge_below (suc n) (suc a) b h =
    omega (arith, bit_or_step (suc a) b, bit_or-ge_below n (suc a / 2) (b / 2) (omega arith))

-- Setting bits does not make a number smaller.
pub bit_or-ge : (a b : ℕ) → a ≤ bit_or a b
bit_or-ge a b = bit_or-ge_below a a b (omega arith)

-- The same with the two sides given by equations.
pub bit_or-parts :
    (k q r : ℕ) {x y : ℕ} → x ≡ q * 2 ^ k → y ≡ r → r < 2 ^ k → bit_or x y ≡ q * 2 ^ k + r
bit_or-parts k q r e f h = ap₂ bit_or e f ∙ bit_or-fields k q r h
