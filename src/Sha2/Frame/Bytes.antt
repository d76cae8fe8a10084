-- ===== src/Sha2/Frame/Bytes.antt =====
-- The words that are stored are bytes, as many as the words have.
use aex_cpp_sdk.Base.{
  ℕ, zero, suc, ◌+◌, ◌*◌, ◌/◌, ◌≡◌, refl, ap, ap₂, ◌∙◌, arith, List, [], ◌∷◌, length, length-append,
  All, IsByte, All-append,
}
use aex_cpp_sdk.Sha2.Frame.{store, store_words}

store-IsByte : (n x : ℕ) → All IsByte (store n x)
unfolding store
store-IsByte zero x = tt
store-IsByte (suc n) x = (omega arith, store-IsByte n (x / 256))

pub store_words-IsByte : (n : ℕ) (ws : List ℕ) → All IsByte (store_words n ws)
unfolding store_words
store_words-IsByte n [] = tt
store_words-IsByte n (w ∷ ws) =
    All-append IsByte (store n w) (store_words n ws) (store-IsByte n w) (store_words-IsByte n ws)

pub length-store : (n x : ℕ) → length (store n x) ≡ n
unfolding store
length-store zero x = refl
length-store (suc n) x = ap suc (length-store n (x / 256))

pub length-store_words : (n : ℕ) (ws : List ℕ) → length (store_words n ws) ≡ length ws * n
unfolding store_words
length-store_words n [] = omega arith
length-store_words n (w ∷ ws) =
    length-append (store n w) (store_words n ws)
    ∙ ap₂ ◌+◌ (length-store n w) (length-store_words n ws)
    ∙ omega arith
