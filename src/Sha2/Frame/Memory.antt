-- ===== src/Sha2/Frame/Memory.antt =====
-- Writing a part of the buffer, and reading words from it.
use aex_cpp_sdk.Base.{
  ℕ, zero, suc, ◌+◌, ◌*◌, ◌≤◌, ◌≡◌, refl, sym, ap, ap₂, ◌∙◌, arith, List, [], ◌∷◌, ◌++◌, length,
  take, drop,
}
use aex_cpp_sdk.Sha2.Frame.{load, load_words, overwrite, copy_at}

-- A part of an array that is written.
pub take-copy_at :
    (used : ℕ) (xs buffer : List ℕ)
    → used + length xs ≤ length buffer
    → take (used + length xs) (copy_at used xs buffer) ≡ take used buffer ++ xs
unfolding copy_at overwrite
take-copy_at zero [] buffer h = refl
take-copy_at zero (x ∷ xs) [] h = absurd (omega (arith, h))
take-copy_at zero (x ∷ xs) (b ∷ bs) h =
    ap (λ (n : ℕ). take n (x ∷ copy_at 0 xs bs)) (next (length xs))
    ∙ ap (x ∷◌) (
        ap (λ (n : ℕ). take n (copy_at 0 xs bs)) (from_zero (length xs))
        ∙ take-copy_at zero xs bs (omega (arith, h)))
  where
    next : (n : ℕ) → 0 + suc n ≡ suc n
    next n = omega arith

    from_zero : (n : ℕ) → n ≡ 0 + n
    from_zero n = omega arith
take-copy_at (suc used) xs [] h = absurd (omega (arith, h))
take-copy_at (suc used) xs (b ∷ bs) h =
    ap (λ (n : ℕ). take n (b ∷ copy_at used xs bs)) (next used (length xs))
    ∙ ap (b ∷◌) (take-copy_at used xs bs (omega (arith, h)))
  where
    next : (m n : ℕ) → suc m + n ≡ suc (m + n)
    next m n = omega arith

length-overwrite : (xs buffer : List ℕ) → length (overwrite xs buffer) ≡ length buffer
unfolding overwrite
length-overwrite [] buffer = refl
length-overwrite (x ∷ xs) [] = refl
length-overwrite (x ∷ xs) (b ∷ bs) = ap suc (length-overwrite xs bs)

pub length-copy_at :
    (used : ℕ) (xs buffer : List ℕ) → length (copy_at used xs buffer) ≡ length buffer
unfolding copy_at
length-copy_at zero xs buffer = length-overwrite xs buffer
length-copy_at (suc used) xs [] = refl
length-copy_at (suc used) xs (b ∷ bs) = ap suc (length-copy_at used xs bs)

pub take-all : (n : ℕ) (xs : List ℕ) → length xs ≡ n → take n xs ≡ xs
take-all zero [] h = refl
take-all zero (x ∷ xs) h = absurd (omega (arith, h))
take-all (suc n) [] h = refl
take-all (suc n) (x ∷ xs) h = ap (x ∷◌) (take-all n xs (omega (arith, h)))

-- Words are read from as many bytes as they have.
load-take : (n m : ℕ) (bytes : List ℕ) → n ≤ m → load n (take m bytes) ≡ load n bytes
unfolding load
load-take zero m bytes h = refl
load-take (suc n) zero bytes h = absurd (omega (arith, h))
load-take (suc n) (suc m) [] h = refl
load-take (suc n) (suc m) (b ∷ bs) h =
    ap (λ (w : ℕ). b + 256 * w) (load-take n m bs (omega (arith, h)))

take-nil : (n : ℕ) → take {A = ℕ} n [] ≡ []
take-nil zero = refl
take-nil (suc n) = refl

drop-take : (n m : ℕ) (bytes : List ℕ) → drop n (take (n + m) bytes) ≡ take m (drop n bytes)
drop-take zero m bytes = ap (λ (k : ℕ). take k bytes) (omega arith)
drop-take (suc n) m [] = ap (drop (suc n)) (take-nil (suc n + m)) ∙ sym (take-nil m)
drop-take (suc n) m (b ∷ bs) =
    ap (λ (k : ℕ). drop (suc n) (take k (b ∷ bs))) (next n m) ∙ drop-take n m bs
  where
    next : (m n : ℕ) → suc m + n ≡ suc (m + n)
    next m n = omega arith

pub load_words-take :
    (w n : ℕ) (bytes : List ℕ) → load_words w n (take (n * w) bytes) ≡ load_words w n bytes
unfolding load_words
load_words-take w zero bytes = refl
load_words-take w (suc n) bytes =
    let split : suc n * w ≡ w + n * w = omega arith in
    ap₂ ◌∷◌ (load-take w (suc n * w) bytes (omega arith)) (
      ap (load_words w n) (ap (λ (k : ℕ). drop w (take k bytes)) split ∙ drop-take w (n * w) bytes)
      ∙ load_words-take w n (drop w bytes))
