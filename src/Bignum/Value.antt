-- ===== src/Bignum/Value.antt =====
-- The number that limbs stand for.
use aex_cpp_sdk.Base.{ℕ, zero, suc, ◌+◌, ◌*◌, ◌/◌, ◌%◌, ◌^◌, ◌≤◌, ◌<◌, ◌≡◌, refl, ap, ap₂, ◌∙◌}
use mathlib.Core.Path.{subst}
use native.Mathlib.Nat.{mod-lt, mod-eq_of_lt, div-add-mod, mul-add-mod_self_left}
use aex_cpp_sdk.Base.{arith, List, [], ◌∷◌, length, All}

-- `sum val[i] * 2^(30 i)`.
abbrev pub value : List ℕ → ℕ
value [] = 0
value (x ∷ xs) = x + 2 ^ 30 * value xs

-- `2^(30 n)`.
abbrev pub radix : ℕ → ℕ
radix zero = 1
radix (suc n) = 2 ^ 30 * radix n

-- Every limb is below `2^30`.
abbrev pub IsNormal : List ℕ → Type 0
IsNormal = All (λ x. x < 2 ^ 30)

-- A normalized `bignum256`.
pub record IsBignum (a : List ℕ) : Type 0 where
  pub limbs : length a ≡ 9
  pub normal : IsNormal a

pub radix-pos : (n : ℕ) → 0 < radix n
radix-pos zero = omega arith
radix-pos (suc n) = omega (arith, radix-pos n)

pub value-lt-radix : (xs : List ℕ) → IsNormal xs → value xs < radix (length xs)
value-lt-radix [] h = omega arith
value-lt-radix (x ∷ xs) (h, hs) = omega (arith, value-lt-radix xs hs)

pub value-lt : {a : List ℕ} → IsBignum a → value a < 2 ^ 270
value-lt {a} p = subst (λ (n : ℕ). value a < radix n) p.limbs (value-lt-radix a p.normal)

-- A remainder by `2^30 * m`, by its lowest limb and the carry.
pub mod-limb :
    (m x v : ℕ)
    → 0 < m
    → (x + 2 ^ 30 * v) % (2 ^ 30 * m) ≡ x % 2 ^ 30 + 2 ^ 30 * ((x / 2 ^ 30 + v) % m)
mod-limb m x v pos =
    ap (λ (t : ℕ). t % (2 ^ 30 * m)) parts
    ∙ mul-add-mod_self_left (2 ^ 30 * m) (y / m) low
    ∙ mod-eq_of_lt small
  where
    y : ℕ
    y = x / 2 ^ 30 + v

    low : ℕ
    low = x % 2 ^ 30 + 2 ^ 30 * (y % m)

    parts : x + 2 ^ 30 * v ≡ 2 ^ 30 * m * (y / m) + low
    parts = omega (arith, ap (λ (t : ℕ). 2 ^ 30 * t) (div-add-mod y m))

    small : low < 2 ^ 30 * m
    small = omega (arith, mod-lt y pos)

-- Normal limbs are determined by their value.
pub value-injective :
    (xs ys : List ℕ)
    → IsNormal xs
    → IsNormal ys
    → length xs ≡ length ys
    → value xs ≡ value ys
    → xs ≡ ys
value-injective [] [] p q n e = refl
value-injective [] (y ∷ ys) p q n e = absurd (omega arith)
value-injective (x ∷ xs) [] p q n e = absurd (omega arith)
value-injective (x ∷ xs) (y ∷ ys) (p, ps) (q, qs) n e =
    ap₂ ◌∷◌ (omega arith) (value-injective xs ys ps qs (omega arith) (omega arith))

-- A normalized number less than twice the prime.
pub record IsPartly (prime a : List ℕ) : Type 0 where
  pub bignum : IsBignum a
  pub partly : value a < 2 * value prime

-- A normalized number of at most `m` times the prime.
pub record AtMost (m : ℕ) (prime a : List ℕ) : Type 0 where
  pub bignum : IsBignum a
  pub bound : value a ≤ m * value prime

-- A normalized number less than the prime.
pub record Reduced (prime a : List ℕ) : Type 0 where
  pub bignum : IsBignum a
  pub less : value a < value prime

pub weaken : {k m : ℕ} {prime a : List ℕ} → k ≤ m → AtMost k prime a → AtMost m prime a
weaken {k} {m} {prime} {a} h p =
    let more : k * value prime ≤ m * value prime = grind arith in
    record { bignum = p.bignum; bound = omega (arith, more, p.bound) }

pub IsPartly→AtMost : {prime a : List ℕ} → IsPartly prime a → AtMost 2 prime a
IsPartly→AtMost p = record { bignum = p.bignum; bound = omega (arith, p.partly) }

pub Reduced→AtMost : {prime a : List ℕ} → Reduced prime a → AtMost 2 prime a
Reduced→AtMost p = record { bignum = p.bignum; bound = omega (arith, p.less) }
