-- ===== src/Sha2/Digest/Padded.antt =====
-- `sha256_Raw` of a message, without the buffer and the counter.
use aex_cpp_sdk.Base.{
  ℕ, suc, ◌+◌, ◌<◌, ◌<<◌, ◌≡◌, refl, ap, ◌∙◌, arith, List, [], ◌∷◌, map, length, length-replicate,
  Bool-cases, inl, inr, ◌==◌, u64,
}
use aex_cpp_sdk.Sha2.Logic.{reverse32}
use aex_cpp_sdk.Sha2.Frame.{
  Context, block_length, store_words, process, used_space, copy_in, init, update, final,
}
use aex_cpp_sdk.Sha2.Frame.Stream.{feed, feed_all, used_space-lt, update-feed_all}
use aex_cpp_sdk.Sha2.Frame.Absorb.{absorb_all, Holds, update-Holds}
use aex_cpp_sdk.Sha2.Frame.Padding.{close, last-close}
use aex_cpp_sdk.Sha2.Digest.{sha256, sha256_init, sha256_update, sha256_final, sha256_raw}
use aex_cpp_sdk.Sha2.Digest.Pieces.{sha256-IsCounting}
use aex_cpp_sdk.Sha2.Sha256.{sha256_initial_hash_value}

init-Holds : Holds sha256 (sha256_initial_hash_value, []) (init sha256)
unfolding init used_space
init-Holds = record {
  state = refl;
  space = refl;
  waiting = refl;
  size = length-replicate {A = ℕ} 64 0;
}

feed-bitcount :
    (c : Context ℕ) (x : ℕ) → (feed sha256 sha256-IsCounting c x).bitcount ≡ u64 (c.bitcount + 8)
unfolding feed process copy_in
feed-bitcount c x = elim (Bool-cases (suc (used_space sha256 c) == block_length sha256)) [
  | inl e ↦ rw e refl
  | inr e ↦ rw e refl
]

feed_all-bitcount :
    (n : ℕ) (c : Context ℕ) (xs : List ℕ)
    → c.bitcount ≡ u64 (n << 3)
    → (feed_all sha256 sha256-IsCounting c xs).bitcount ≡ u64 ((n + length xs) << 3)
unfolding feed_all
feed_all-bitcount n c [] h = h ∙ ap (λ (m : ℕ). u64 (m << 3)) (omega arith)
feed_all-bitcount n c (x ∷ xs) h =
    feed_all-bitcount (suc n) (feed sha256 sha256-IsCounting c x) xs
      (feed-bitcount c x ∙ omega (arith, h))
    ∙ ap (λ (m : ℕ). u64 (m << 3)) (omega arith)

-- `sha256_Raw` of any message takes the bytes of the message, the byte 0x80 and zeros one at a
-- time from the initial state, with a transform whenever 64 bytes wait, and gives the bytes of the
-- state's words, each word reversed, after a last transform of the 56 bytes that then wait and the
-- number of the message's bits modulo `2^64`.
pub sha256_raw-close :
    (message : List ℕ)
    → sha256_raw message
      ≡ store_words 4 (
          map reverse32 (
            close sha256
              (absorb_all sha256 (sha256_initial_hash_value, []) message)
              (u64 (length message << 3))))
unfolding sha256_raw sha256_init sha256_update sha256_final init final
sha256_raw-close message =
    let p = absorb_all sha256 (sha256_initial_hash_value, []) message in
    let c = update sha256 (init sha256) message in
    let held : Holds sha256 p c =
      update-Holds sha256 sha256-IsCounting (sha256_initial_hash_value, []) (init sha256) message
        init-Holds in
    let below : length p.1 < 64 =
      omega (arith, used_space-lt sha256 sha256-IsCounting c, held.space) in
    let bits : c.bitcount ≡ u64 (length message << 3) =
      ap (λ (d : Context ℕ). d.bitcount)
        (update-feed_all sha256 sha256-IsCounting (init sha256) message)
      ∙ feed_all-bitcount 0 (init sha256) message refl
      ∙ ap (λ (n : ℕ). u64 (n << 3)) (omega arith) in
    ap (λ (state : List ℕ). store_words 4 (map reverse32 state))
      (last-close sha256 p c held below (omega arith) ∙ ap (close sha256 p) bits)
