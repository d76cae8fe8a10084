-- ===== src/Bech32/Checksum/Linear.antt =====
-- `polymod` is linear over exclusive or, and only shifts while its state is small.
use aex_cpp_sdk.Base.{ℕ, zero, suc, ◌+◌, ◌*◌, ◌%◌, ◌^◌, ◌<◌, ◌≡◌, refl, sym, ap, ap₂, ◌∙◌, arith}
use aex_cpp_sdk.Base.{List, [], ◌∷◌, ◌++◌, length, replicate, bit_and, bit_xor, bit_and-low}
use aex_cpp_sdk.Base.{bit_xor-div, bit_xor-mod_pow, bit_xor-fields, bit_xor_self, bit_xor-zero}
use aex_cpp_sdk.Base.{bit_xor_swap, zero-bit_xor, u8, neg64, ◌>>◌}
use Prim.Native.Nat.{bit_and-bitwise}
use aex_cpp_sdk.Bech32.Checksum.{generator, polymod_step, polymod_from}

zero-bit_and : (g : ℕ) → bit_and 0 g ≡ 0
zero-bit_and g = bit_and-bitwise 0 g

-- The mask of one bit, for bits that are added modulo 2.
mask-bit_xor :
    (x y g : ℕ)
    → x < 2
    → y < 2
    → bit_and (neg64 (bit_xor x y)) g ≡ bit_xor (bit_and (neg64 x) g) (bit_and (neg64 y) g)
mask-bit_xor zero zero g p q =
    zero-bit_and g ∙ sym (ap₂ bit_xor (zero-bit_and g) (zero-bit_and g) ∙ zero-bit_xor 0)
mask-bit_xor zero (suc zero) g p q =
    sym (ap (λ (t : ℕ). bit_xor t (bit_and (neg64 1) g)) (zero-bit_and g) ∙ zero-bit_xor _)
mask-bit_xor (suc zero) zero g p q =
    sym (ap (bit_xor (bit_and (neg64 1) g)) (zero-bit_and g) ∙ bit_xor-zero _)
mask-bit_xor (suc zero) (suc zero) g p q = zero-bit_and g ∙ sym (bit_xor_self _)
mask-bit_xor zero (suc (suc y)) g p q = absurd (omega arith)
mask-bit_xor (suc zero) (suc (suc y)) g p q = absurd (omega arith)
mask-bit_xor (suc (suc x)) y g p q = absurd (omega arith)

generator-bit_xor :
    (s t i g : ℕ) → generator (bit_xor s t) i g ≡ bit_xor (generator s i g) (generator t i g)
unfolding generator
generator-bit_xor s t i g =
    ap (λ (x : ℕ). bit_and (neg64 x) g) bit
    ∙ mask-bit_xor (bit_and (s >> i) 1) (bit_and (t >> i) 1) g (is_bit s) (is_bit t)
  where
    is_bit : (x : ℕ) → bit_and (x >> i) 1 < 2
    is_bit x = omega (arith, bit_and-low 1 (x >> i))

    bit : bit_and (bit_xor s t >> i) 1 ≡ bit_xor (bit_and (s >> i) 1) (bit_and (t >> i) 1)
    bit =
        bit_and-low 1 (bit_xor s t >> i)
        ∙ ap (λ (x : ℕ). x % 2 ^ 1) (bit_xor-div i s t)
        ∙ bit_xor-mod_pow 1 (s >> i) (t >> i)
        ∙ ap₂ bit_xor (sym (bit_and-low 1 (s >> i))) (sym (bit_and-low 1 (t >> i)))

-- The five terms that depend on the top bits.
abbrev five : ℕ → ℕ → ℕ
five x t =
    bit_xor
      (bit_xor
        (bit_xor (bit_xor (bit_xor x (generator t 0 0x3b6a57b2)) (generator t 1 0x26508e6d))
          (generator t 2 0x1ea119fa))
        (generator t 3 0x3d4233dd))
      (generator t 4 0x2a1462b3)

five-bit_xor : (x y s t : ℕ) → five (bit_xor x y) (bit_xor s t) ≡ bit_xor (five x s) (five y t)
five-bit_xor x y s t =
    one _ _ 4 0x2a1462b3 (
      one _ _ 3 0x3d4233dd
        (one _ _ 2 0x1ea119fa (one _ _ 1 0x26508e6d (one x y 0 0x3b6a57b2 refl))))
  where
    one :
        (q r : ℕ) {p : ℕ} (i g : ℕ)
        → p ≡ bit_xor q r
        → bit_xor p (generator (bit_xor s t) i g)
          ≡ bit_xor (bit_xor q (generator s i g)) (bit_xor r (generator t i g))
    one q r i g e =
        ap₂ bit_xor e (generator-bit_xor s t i g)
        ∙ bit_xor_swap q r (generator s i g) (generator t i g)

pub polymod_step-bit_xor :
    (a b v w : ℕ)
    → polymod_step (bit_xor a b) (bit_xor v w) ≡ bit_xor (polymod_step a v) (polymod_step b w)
unfolding polymod_step
polymod_step-bit_xor a b v w =
    ap (λ (x : ℕ). x % 2 ^ 32)
      (ap₂ five (ap (λ (x : ℕ). bit_xor x (bit_xor v w)) shifted ∙ bit_xor_swap _ _ v w) top
        ∙ five-bit_xor _ _ (u8 (a >> 25)) (u8 (b >> 25)))
    ∙ bit_xor-mod_pow 32 _ _
  where
    shifted :
        bit_and (bit_xor a b) 0x1ffffff * 2 ^ 5
        ≡ bit_xor (bit_and a 0x1ffffff * 2 ^ 5) (bit_and b 0x1ffffff * 2 ^ 5)
    shifted = omega (
      arith,
      bit_and-low 25 (bit_xor a b),
      bit_xor-mod_pow 25 a b,
      ap₂ bit_xor (bit_and-low 25 a) (bit_and-low 25 b),
      bit_xor-fields 5 (bit_and a 0x1ffffff) (bit_and b 0x1ffffff) 0 0 (omega arith) (omega arith),
      ap₂ bit_xor (plus_zero (bit_and a 0x1ffffff)) (plus_zero (bit_and b 0x1ffffff)),
      zero-bit_xor 0,
    )
      where
        plus_zero : (x : ℕ) → x * 2 ^ 5 + 0 ≡ x * 2 ^ 5
        plus_zero x = omega arith

    top : u8 (bit_xor a b >> 25) ≡ bit_xor (u8 (a >> 25)) (u8 (b >> 25))
    top = ap u8 (bit_xor-div 25 a b) ∙ bit_xor-mod_pow 8 (a >> 25) (b >> 25)

-- The loop splits into one over zeros and one from the other state.
pub polymod_from-bit_xor :
    (a b : ℕ) (vs : List ℕ)
    → polymod_from (bit_xor a b) vs
      ≡ bit_xor (polymod_from a (replicate (length vs) 0)) (polymod_from b vs)
unfolding polymod_from
polymod_from-bit_xor a b [] = refl
polymod_from-bit_xor a b (v ∷ vs) =
    ap (λ (s : ℕ). polymod_from s vs)
      (ap (polymod_step (bit_xor a b)) (sym (zero-bit_xor v)) ∙ polymod_step-bit_xor a b 0 v)
    ∙ polymod_from-bit_xor (polymod_step a 0) (polymod_step b v) vs

pub polymod_from-append :
    (s : ℕ) (xs ys : List ℕ) → polymod_from s (xs ++ ys) ≡ polymod_from (polymod_from s xs) ys
unfolding polymod_from
polymod_from-append s [] ys = refl
polymod_from-append s (x ∷ xs) ys = polymod_from-append (polymod_step s x) xs ys

-- A state below 2^25 has no top bits, so a digit is shifted in.
five-zero : (x : ℕ) → five x 0 ≡ x
unfolding generator
five-zero x = simp (zero-bit_and, bit_xor-zero)

pub polymod_step-small : (s v : ℕ) → s < 2 ^ 25 → v < 32 → polymod_step s v ≡ s * 32 + v
unfolding polymod_step
polymod_step-small s v p q =
    ap (λ (x : ℕ). x % 2 ^ 32)
      (ap (five (bit_xor (bit_and s 0x1ffffff * 2 ^ 5) v)) top ∙ five-zero _ ∙ low)
    ∙ omega arith
  where
    top : u8 (s >> 25) ≡ 0
    top = omega arith

    low : bit_xor (bit_and s 0x1ffffff * 2 ^ 5) v ≡ s * 32 + v
    low = omega (
      arith,
      ap₂ bit_xor plus_zero no_high,
      bit_xor-fields 5 s 0 0 v (omega arith) (omega arith),
      bit_xor-zero s,
      zero-bit_xor v,
    )
      where
        plus_zero : s * 2 ^ 5 + 0 ≡ bit_and s 0x1ffffff * 2 ^ 5
        plus_zero = omega (arith, bit_and-low 25 s)

        no_high : 0 * 2 ^ 5 + v ≡ v
        no_high = omega arith
