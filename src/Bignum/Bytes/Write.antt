-- ===== src/Bignum/Bytes/Write.antt =====
-- What `bn_write_be` writes is read back by `bn_read_be`.
use aex_cpp_sdk.Base.{ℕ, zero, suc, ◌+◌, ◌-◌, ◌*◌, ◌/◌, ◌%◌, ◌^◌, ◌<◌, ◌≡◌, refl, ap, ap₂, ◌∙◌}
use aex_cpp_sdk.Base.{arith, List, [], ◌∷◌, ◌++◌, All, IsU32, bit_or-parts}
use aex_cpp_sdk.Base.{get_or, drop, drop-nil, All-get_or}
use mathlib.Core.Path.{fun_ext}
use native.Mathlib.Nat.{mul_comm}
use aex_cpp_sdk.Bignum.Value.{value, value-injective, IsNormal, IsBignum}
use aex_cpp_sdk.Bignum.Bytes.{
  read_be, write_be, read_loop, bn_read_be, write_loop, words_be, bn_write_be,
}
use aex_cpp_sdk.Bignum.Bytes.Words.{read_be-write_be}
use aex_cpp_sdk.Bignum.Bytes.Read.{words_value, read_words}

-- The word at place `j` is found four bytes to a word.
word_at :
    (ws : List ℕ) (j : ℕ) → All IsU32 ws → read_be (drop (4 * j) (words_be ws)) ≡ get_or ws j 0
unfolding words_be write_be
word_at [] j h = rw (drop-nil (4 * j)) (unfold read_be in refl)
word_at (w ∷ ws) zero (h, hs) = unfold read_be write_be in read_be-write_be w h
word_at (w ∷ ws) (suc j) (h, hs) =
    ap (λ (n : ℕ). read_be (drop n (write_be w ++ words_be ws))) (four_more j) ∙ word_at ws j hs
  where
    four_more : (k : ℕ) → 4 * suc k ≡ suc (suc (suc (suc (4 * k))))
    four_more k = omega arith

-- The words that are written, for a number below `2^256`.
abbrev written : List ℕ → List ℕ
written a = write_loop a 8 0 (get_or a 8 0)

module _ (a b c d e f g h k : ℕ) (normal : IsNormal (a ∷ b ∷ c ∷ d ∷ e ∷ f ∷ g ∷ h ∷ k ∷ []))
    (top : k < 2 ^ 16) where
  abbrev limbs : List ℕ
  limbs = a ∷ b ∷ c ∷ d ∷ e ∷ f ∷ g ∷ h ∷ k ∷ []

  -- The word written at a round: the low bits of one limb above the high bits of the next.
  abbrev word : ℕ → ℕ → ℕ → ℕ
  word i high low = high * 2 ^ (16 + 2 * i) % 2 ^ 32 + low / 2 ^ (14 - 2 * i)

  written-words :
      written limbs
      ≡ word 0 k h
        ∷ word 1 h g
        ∷ word 2 g f
        ∷ word 3 f e
        ∷ word 4 e d
        ∷ word 5 d c
        ∷ word 6 c b
        ∷ word 7 b a
        ∷ []
  unfolding write_loop
  written-words =
      ap₂ ◌∷◌
        (bit_or-parts 16 (k % 2 ^ 16) (h / 2 ^ 14) (omega arith) refl (omega arith) ∙ omega arith)
        (ap₂ ◌∷◌
          (bit_or-parts 18 (h % 2 ^ 14) (g / 2 ^ 12) (omega arith) refl (omega arith) ∙ omega arith)
          (ap₂ ◌∷◌
            (bit_or-parts 20 (g % 2 ^ 12) (f / 2 ^ 10) (omega arith) refl (omega arith)
              ∙ omega arith)
            (ap₂ ◌∷◌
              (bit_or-parts 22 (f % 2 ^ 10) (e / 2 ^ 8) (omega arith) refl (omega arith)
                ∙ omega arith)
              (ap₂ ◌∷◌
                (bit_or-parts 24 (e % 2 ^ 8) (d / 2 ^ 6) (omega arith) refl (omega arith)
                  ∙ omega arith)
                (ap₂ ◌∷◌
                  (bit_or-parts 26 (d % 2 ^ 6) (c / 2 ^ 4) (omega arith) refl (omega arith)
                    ∙ omega arith)
                  (ap₂ ◌∷◌
                    (bit_or-parts 28 (c % 2 ^ 4) (b / 2 ^ 2) (omega arith) refl (omega arith)
                      ∙ omega arith)
                    (ap₂ ◌∷◌
                      (bit_or-parts 30 (b % 2 ^ 2) (a / 2 ^ 0) (omega arith) refl (omega arith)
                        ∙ omega arith)
                      refl)))))))

  -- The words are the number's digits in base `2^32`.
  written-value : words_value (λ i. get_or (written limbs) (7 - i) 0) 8 0 ≡ value limbs
  written-value = rw written-words (omega arith)

  written-All : All IsU32 (written limbs)
  written-All = rw written-words (omega arith)

  -- Reading the bytes back.
  read-written : bn_read_be (bn_write_be limbs) ≡ limbs
  unfolding bn_read_be bn_write_be
  read-written =
      ap (λ (f : ℕ → ℕ). read_loop f 8 0 0) (fun_ext same)
      ∙ value-injective _ limbs r.0.normal normal r.0.limbs (r.1 ∙ written-value)
    where
      at : ℕ → ℕ
      at i = get_or (written limbs) (7 - i) 0

      same : (i : ℕ) → read_be (drop ((7 - i) * 4) (words_be (written limbs))) ≡ at i
      same i =
          ap (λ (n : ℕ). read_be (drop n (words_be (written limbs)))) (mul_comm (7 - i) 4)
          ∙ word_at (written limbs) (7 - i) written-All

      r : IsBignum (read_loop at 8 0 0) × (value (read_loop at 8 0 0) ≡ words_value at 8 0)
      r = read_words at (λ j. All-get_or IsU32 (written limbs) (7 - j) 0 (omega arith) written-All)

-- `bn_read_be` of the 32 bytes of `bn_write_be` gives back a normalized number below `2^256`.
pub bn_read_be-bn_write_be :
    (a : List ℕ) → IsBignum a → value a < 2 ^ 256 → bn_read_be (bn_write_be a) ≡ a
bn_read_be-bn_write_be (a ∷ b ∷ c ∷ d ∷ e ∷ f ∷ g ∷ h ∷ k ∷ []) p fits =
    read-written a b c d e f g h k p.normal (omega arith)
bn_read_be-bn_write_be [] p fits = absurd (omega (arith, p.limbs))
bn_read_be-bn_write_be (a ∷ []) p fits = absurd (omega (arith, p.limbs))
bn_read_be-bn_write_be (a ∷ b ∷ []) p fits = absurd (omega (arith, p.limbs))
bn_read_be-bn_write_be (a ∷ b ∷ c ∷ []) p fits = absurd (omega (arith, p.limbs))
bn_read_be-bn_write_be (a ∷ b ∷ c ∷ d ∷ []) p fits = absurd (omega (arith, p.limbs))
bn_read_be-bn_write_be (a ∷ b ∷ c ∷ d ∷ e ∷ []) p fits = absurd (omega (arith, p.limbs))
bn_read_be-bn_write_be (a ∷ b ∷ c ∷ d ∷ e ∷ f ∷ []) p fits = absurd (omega (arith, p.limbs))
bn_read_be-bn_write_be (a ∷ b ∷ c ∷ d ∷ e ∷ f ∷ g ∷ []) p fits = absurd (omega (arith, p.limbs))
bn_read_be-bn_write_be (a ∷ b ∷ c ∷ d ∷ e ∷ f ∷ g ∷ h ∷ []) p fits = absurd (omega (arith, p.limbs))
bn_read_be-bn_write_be (a ∷ b ∷ c ∷ d ∷ e ∷ f ∷ g ∷ h ∷ k ∷ l ∷ ls) p fits =
    absurd (omega (arith, p.limbs))
