-- ===== src/Base/Residues.antt =====
-- Products and powers of residues.
use Prim.Native.Nat.{ℕ, zero, suc, ◌+◌, ◌*◌, ◌/◌, ◌%◌, ◌^◌, ◌-◌, ◌<◌}
use mathlib.Core.Path.{◌≡◌, refl, sym, ap, ap₂, ◌∙◌}
use native.Mathlib.Omega.{arith}
use native.Mathlib.Nat.{mod-add-div', add-mul-mod_self_right, add-mod, pow-zero, pow-suc, mul_assoc}

mul-mod_parts : (m r q s t : ℕ) → (r + q * m) * (s + t * m) ≡ r * s + (r * t + q * (s + t * m)) * m
mul-mod_parts m r q s t = grind arith

pub mul-mod : (a b m : ℕ) → a * b % m ≡ (a % m) * (b % m) % m
mul-mod a b m =
    ap₂ (λ (x y : ℕ). x * y % m) (sym (mod-add-div' a m)) (sym (mod-add-div' b m))
    ∙ ap (λ (x : ℕ). x % m) (mul-mod_parts m (a % m) (a / m) (b % m) (b / m))
    ∙ add-mul-mod_self_right ((a % m) * (b % m)) ((a % m) * (b / m) + (a / m) * (b % m + b / m * m))
        m

pub mul_residue : (m a b c d : ℕ) → a % m ≡ c % m → b % m ≡ d % m → a * b % m ≡ c * d % m
mul_residue m a b c d e f = mul-mod a b m ∙ ap₂ (λ (x y : ℕ). x * y % m) e f ∙ sym (mul-mod c d m)

pub add_residue : (m a b c d : ℕ) → a % m ≡ c % m → b % m ≡ d % m → (a + b) % m ≡ (c + d) % m
add_residue m a b c d e f = add-mod a b m ∙ ap₂ (λ (x y : ℕ). (x + y) % m) e f ∙ sym (add-mod c d m)

-- A summand on both sides of a congruence.
pub cancel_residue : (m a b c : ℕ) → 0 < m → (a + c) % m ≡ (b + c) % m → a % m ≡ b % m
cancel_residue m a b c pos e =
    sym (gone a) ∙ add_residue m (a + c) (c * (m - 1)) (b + c) (c * (m - 1)) e refl ∙ gone b
  where
    gone : (x : ℕ) → (x + c + c * (m - 1)) % m ≡ x % m
    gone x =
        let n = m - 1 in
        let size : m ≡ suc n = omega arith in
        let total : x + c + c * n ≡ x + c * suc n = grind arith in
        ap (λ (t : ℕ). t % m) (total ∙ ap (λ (k : ℕ). x + c * k) (sym size))
        ∙ add-mul-mod_self_right x c m

pub pow_residue : (m a c n : ℕ) → a % m ≡ c % m → a ^ n % m ≡ c ^ n % m
pow_residue m a c zero e = ap (λ (x : ℕ). x % m) (pow-zero a ∙ sym (pow-zero c))
pow_residue m a c (suc n) e =
    ap (λ (x : ℕ). x % m) (pow-suc a n)
    ∙ mul_residue m (a ^ n) a (c ^ n) c (pow_residue m a c n e) e
    ∙ ap (λ (x : ℕ). x % m) (sym (pow-suc c n))

pub pow-add : (a m n : ℕ) → a ^ (m + n) ≡ a ^ m * a ^ n
pow-add a m zero =
    let none : m + 0 ≡ m = omega arith in ap (λ (k : ℕ). a ^ k) none ∙ grind (arith, pow-zero a)
pow-add a m (suc n) =
    let more : m + suc n ≡ suc (m + n) = omega arith in
    ap (λ (k : ℕ). a ^ k) more
    ∙ pow-suc a (m + n)
    ∙ ap (λ (x : ℕ). x * a) (pow-add a m n)
    ∙ mul_assoc (a ^ m) (a ^ n) a
    ∙ ap (λ (x : ℕ). a ^ m * x) (sym (pow-suc a n))

pub pow-mul : (a m n : ℕ) → a ^ (m * n) ≡ (a ^ m) ^ n
pow-mul a m zero =
    let none : m * 0 ≡ 0 = omega arith in
    ap (λ (k : ℕ). a ^ k) none ∙ pow-zero a ∙ sym (pow-zero (a ^ m))
pow-mul a m (suc n) =
    let more : m * suc n ≡ m * n + m = grind arith in
    ap (λ (k : ℕ). a ^ k) more
    ∙ pow-add a (m * n) m
    ∙ ap (λ (x : ℕ). x * a ^ m) (pow-mul a m n)
    ∙ sym (pow-suc (a ^ m) n)
