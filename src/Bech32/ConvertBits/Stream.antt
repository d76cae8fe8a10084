-- ===== src/Bech32/ConvertBits/Stream.antt =====
-- What regrouping means: a list of digits of `w` bits as the stream of its bits, the highest first.
use aex_cpp_sdk.Base.{ℕ, zero, suc, ◌+◌, ◌*◌, ◌/◌, ◌%◌, ◌^◌, ◌≤◌, ◌<◌, ◌≡◌, refl, sym, ap, ap₂, ◌∙◌}
use aex_cpp_sdk.Base.{arith, List, [], ◌∷◌, ◌++◌, append-nil, append_assoc, length, length-append}
use aex_cpp_sdk.Base.{replicate, All, div-two-pow-suc, mod-two-pow-suc, get_or}
use native.Mathlib.Nat.{pow-suc, add-zero, mod-lt, one-le-pow, le_refl}
use mathlib.Core.List.{tail}

-- The lowest `w` bits of a number.
unfoldable pub bits : ℕ → ℕ → List ℕ
bits zero x = []
bits (suc w) x = bits w (x / 2) ++ (x % 2 ∷ [])

-- The bits of a list of digits.
unfoldable pub stream : ℕ → List ℕ → List ℕ
stream w [] = []
stream w (x ∷ xs) = bits w x ++ stream w xs

pub length-bits : (w x : ℕ) → length (bits w x) ≡ w
unfolding bits
length-bits zero x = refl
length-bits (suc w) x =
    omega (arith, length-append (bits w (x / 2)) (x % 2 ∷ []), length-bits w (x / 2))

pub length-stream : (w : ℕ) (xs : List ℕ) → length (stream w xs) ≡ length xs * w
unfolding stream
length-stream w [] = omega arith
length-stream w (x ∷ xs) =
    length-append (bits w x) (stream w xs) ∙ omega (arith, length-bits w x, length-stream w xs)

pub stream-append : (w : ℕ) (xs ys : List ℕ) → stream w (xs ++ ys) ≡ stream w xs ++ stream w ys
unfolding stream
stream-append w [] ys = refl
stream-append w (x ∷ xs) ys =
    ap (◌++◌ (bits w x)) (stream-append w xs ys)
    ∙ sym (append_assoc (bits w x) (stream w xs) (stream w ys))

-- The high bits, then the low ones.
pub bits-add : (v w x : ℕ) → bits (v + w) x ≡ bits v (x / 2 ^ w) ++ bits w x
unfolding bits
bits-add v zero x = ap₂ bits (add-zero v) (omega arith) ∙ sym (append-nil (bits v (x / 2 ^ 0)))
bits-add v (suc w) x =
    ap (λ (n : ℕ). bits n x) sum
    ∙ ap (λ l. l ++ (x % 2 ∷ [])) (bits-add v w (x / 2))
    ∙ append_assoc (bits v (x / 2 / 2 ^ w)) (bits w (x / 2)) (x % 2 ∷ [])
    ∙ ap (λ (t : ℕ). bits v t ++ bits (suc w) x) (sym (div-two-pow-suc w x))
  where
    sum : v + suc w ≡ suc (v + w)
    sum = omega arith

-- Only the bits that are read matter.
pub bits-mod : (v w x : ℕ) → v ≤ w → bits v (x % 2 ^ w) ≡ bits v x
unfolding bits
bits-mod zero w x h = refl
bits-mod (suc v) zero x h = absurd (omega arith)
bits-mod (suc v) (suc w) x h =
    ap₂ (λ l (b : ℕ). l ++ (b ∷ []))
      (ap (bits v) (omega (arith, mod-two-pow-suc w x)) ∙ bits-mod v w (x / 2) (omega arith))
      (omega (arith, mod-two-pow-suc w x))

pub bits-zero : (w : ℕ) → bits w 0 ≡ replicate w 0
unfolding bits
bits-zero zero = refl
bits-zero (suc w) = ap (λ l. l ++ (0 ∷ [])) (bits-zero w) ∙ snoc w
  where
    snoc : (n : ℕ) → replicate n 0 ++ (0 ∷ []) ≡ replicate (suc n) (zero)
    snoc zero = refl
    snoc (suc n) = ap (◌∷◌ 0) (snoc n)

-- A common split point.
pub append-injective :
    (us vs cs ds : List ℕ) → length us ≡ length vs → us ++ cs ≡ vs ++ ds → (us ≡ vs) × (cs ≡ ds)
append-injective [] [] cs ds n e = (refl, e)
append-injective [] (v ∷ vs) cs ds n e = absurd (omega arith)
append-injective (u ∷ us) [] cs ds n e = absurd (omega arith)
append-injective (u ∷ us) (v ∷ vs) cs ds n e =
    let rest = append-injective us vs cs ds (omega arith) (ap tail e) in
    (ap₂ ◌∷◌ (ap (λ l. get_or l 0 u) e) rest.0, rest.1)

bits-injective : (w x y : ℕ) → x < 2 ^ w → y < 2 ^ w → bits w x ≡ bits w y → x ≡ y
unfolding bits
bits-injective zero x y p q e = omega arith
bits-injective (suc w) x y p q e =
    let parts =
      append-injective (bits w (x / 2)) (bits w (y / 2)) (x % 2 ∷ []) (y % 2 ∷ [])
        (length-bits w (x / 2) ∙ sym (length-bits w (y / 2))) e in
    omega (
      arith,
      bits-injective w (x / 2) (y / 2) (omega (arith, pow-suc 2 w)) (omega (arith, pow-suc 2 w))
          parts.0,
      ap (λ l. get_or l 0 0) parts.1,
    )

-- Digits of `w` bits are determined by their stream.
pub stream-injective :
    (w : ℕ) (xs ys : List ℕ)
    → All (λ x. x < 2 ^ w) xs
    → All (λ y. y < 2 ^ w) ys
    → length xs ≡ length ys
    → stream w xs ≡ stream w ys
    → xs ≡ ys
unfolding stream
stream-injective w [] [] p q n e = refl
stream-injective w [] (y ∷ ys) p q n e = absurd (omega arith)
stream-injective w (x ∷ xs) [] p q n e = absurd (omega arith)
stream-injective w (x ∷ xs) (y ∷ ys) p q n e =
    let parts =
      append-injective (bits w x) (bits w y) (stream w xs) (stream w ys)
        (length-bits w x ∙ sym (length-bits w y)) e in
    ap₂ ◌∷◌ (bits-injective w x y p.0 q.0 parts.0)
      (stream-injective w xs ys p.1 q.1 (omega arith) parts.1)

-- A number whose `w` low bits are all 0.
pub bits-eq-zero : (w x : ℕ) → bits w x ≡ replicate w 0 → x % 2 ^ w ≡ 0
bits-eq-zero w x e =
    bits-injective w (x % 2 ^ w) 0 (mod-lt x (one-le-pow w 2 (omega arith)))
      (one-le-pow w 2 (omega arith)) (bits-mod w w x (le_refl w) ∙ e ∙ sym (bits-zero w))
