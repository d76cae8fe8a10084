-- ===== src/Sha2/Frame/Absorb.antt =====
-- The hash functions without their buffers and counters: a state and the bytes that wait for a block.
use aex_cpp_sdk.Base.{
  ℕ, zero, suc, ◌+◌, ◌*◌, ◌≤◌, ◌<◌, ◌≡◌, refl, sym, ap, ap₂, ◌∙◌, arith, List, [], ◌∷◌, ◌++◌, map,
  length, length-append, length-map, take, drop, true, false, Bool-cases, inl, inr, ◌==◌,
  if◌then◌else◌,
}
use aex_cpp_sdk.Sha2.Frame.{
  Algorithm, Context, block_length, load_words, copy_at, process, used_space, copy_in, update,
}
use mathlib.Core.Path.{subst, subst₂}
use aex_cpp_sdk.Sha2.Frame.Bytes.{length-store_words}
use aex_cpp_sdk.Sha2.Frame.Memory.{take-copy_at, length-copy_at, take-all}
use aex_cpp_sdk.Sha2.Frame.Stream.{
  IsCounting, feed, feed_all, used_space-lt, used_space-copy_in, used_space-process, feed_inside,
  feed_full, update-feed_all,
}

pub length-load_words : (w n : ℕ) (bytes : List ℕ) → length (load_words w n bytes) ≡ n
unfolding load_words
length-load_words w zero bytes = refl
length-load_words w (suc n) bytes = ap suc (length-load_words w n (drop w bytes))

module _ {Count : Type 0} (alg : Algorithm Count) where
  -- The words of a block.
  unfoldable pub words_of : ℕ → List ℕ → List ℕ
  words_of n bytes = map alg.reverse (load_words alg.word n bytes)

  -- A byte waits, and a block that is complete goes through the transform.
  unfoldable pub absorb : List ℕ × List ℕ → ℕ → List ℕ × List ℕ
  absorb (state, waiting) x =
      let block = waiting ++ (x ∷ []) in
      if length block == block_length alg
      then (alg.transform state (words_of 16 block), [])
      else (state, block)

  unfoldable pub absorb_all : List ℕ × List ℕ → List ℕ → List ℕ × List ℕ
  absorb_all p [] = p
  absorb_all p (x ∷ xs) = absorb_all (absorb p x) xs

  -- What a context stands for.
  pub record Holds (p : List ℕ × List ℕ) (c : Context Count) : Type 0 where
    pub state : c.state ≡ p.0
    pub space : used_space alg c ≡ length p.1
    pub waiting : take (length p.1) c.buffer ≡ p.1
    pub size : length c.buffer ≡ block_length alg

  -- The buffer after more bytes.
  pub written :
      (p : List ℕ × List ℕ) (c : Context Count) (xs : List ℕ)
      → Holds p c
      → length p.1 + length xs ≤ block_length alg
      → take (length p.1 + length xs) (copy_at (length p.1) xs c.buffer) ≡ p.1 ++ xs
  written p c xs h small =
      take-copy_at (length p.1) xs c.buffer (omega (arith, small, h.size))
      ∙ ap (λ (a : List ℕ). a ++ xs) h.waiting

  pub full :
      (p : List ℕ × List ℕ) (c : Context Count) (xs : List ℕ)
      → Holds p c
      → length p.1 + length xs ≡ block_length alg
      → copy_at (length p.1) xs c.buffer ≡ p.1 ++ xs
  full p c xs h whole =
      sym (
        take-all (length p.1 + length xs) (copy_at (length p.1) xs c.buffer)
          (length-copy_at (length p.1) xs c.buffer ∙ h.size ∙ sym whole))
      ∙ written p c xs h (omega (arith, whole))

  length-snoc : (q : List ℕ) (x : ℕ) → length (q ++ (x ∷ [])) ≡ suc (length q)
  length-snoc q x = length-append q (x ∷ []) ∙ omega arith

  pub absorb_full :
      (p : List ℕ × List ℕ) (x : ℕ)
      → suc (length p.1) ≡ block_length alg
      → absorb p x ≡ (alg.transform p.0 (words_of 16 (p.1 ++ (x ∷ []))), [])
  unfolding absorb
  absorb_full p x h =
      let yes : (length (p.1 ++ (x ∷ [])) == block_length alg) ≡ true =
        ground (arith, length-snoc p.1 x, h) in
      rw yes refl

  pub absorb_inside :
      (p : List ℕ × List ℕ) (x : ℕ)
      → suc (length p.1) < block_length alg
      → absorb p x ≡ (p.0, p.1 ++ (x ∷ []))
  unfolding absorb
  absorb_inside p x h =
      let no : (length (p.1 ++ (x ∷ [])) == block_length alg) ≡ false =
        ground (arith, length-snoc p.1 x, h) in
      rw no refl

  module _ (v : IsCounting alg) where
    copy_in-Holds :
        (p : List ℕ × List ℕ) (c : Context Count) (x : ℕ)
        → Holds p c
        → suc (length p.1) < block_length alg
        → Holds (p.0, p.1 ++ (x ∷ [])) (copy_in alg (length p.1) (x ∷ []) c)
    unfolding copy_in
    copy_in-Holds p c x h small =
        let used =
          used_space-copy_in alg v c (length p.1) (x ∷ []) (omega (arith, h.space, small)) in
        let more : length (p.1 ++ (x ∷ [])) ≡ length p.1 + 1 = length-append p.1 (x ∷ []) in
        record {
          state = h.state;
          space = used ∙ omega (arith, h.space, more);
          waiting =
              ap (λ (n : ℕ). take n (copy_at (length p.1) (x ∷ []) c.buffer)) more
              ∙ written p c (x ∷ []) h (omega (arith, small));
          size = length-copy_at (length p.1) (x ∷ []) c.buffer ∙ h.size;
        }

    process-Holds :
        (p : List ℕ × List ℕ) (c : Context Count) (x : ℕ)
        → Holds p c
        → suc (length p.1) ≡ block_length alg
        → Holds
            (alg.transform p.0 (words_of 16 (p.1 ++ (x ∷ []))), [])
            (process alg (copy_in alg (length p.1) (x ∷ []) c))
    unfolding process copy_in words_of
    process-Holds p c x h whole =
        let used =
          used_space-process alg v c (length p.1) (x ∷ []) (omega (arith, h.space, whole)) in
        let block = full p c (x ∷ []) h (omega (arith, whole)) in
        record {
          state =
              ap₂ alg.transform h.state
                (ap (λ (b : List ℕ). map alg.reverse (load_words alg.word 16 b)) block);
          space = used;
          waiting = refl;
          size =
              length-store_words alg.word _
              ∙ ap (λ (n : ℕ). n * alg.word)
                  (length-map (load_words alg.word 16 (copy_at (length p.1) (x ∷ []) c.buffer))
                      alg.reverse
                    ∙ length-load_words alg.word 16 (copy_at (length p.1) (x ∷ []) c.buffer));
        }

    feed-Holds :
        (p : List ℕ × List ℕ) (c : Context Count) (x : ℕ)
        → Holds p c
        → Holds (absorb p x) (feed alg v c x)
    feed-Holds p c x h = elim (Bool-cases (suc (length p.1) == block_length alg)) [
      | inl e ↦
          let whole : suc (length p.1) ≡ block_length alg = ground (arith, e) in
          subst₂ Holds (sym (absorb_full p x whole))
            (ap (λ (n : ℕ). process alg (copy_in alg n (x ∷ []) c)) (sym h.space)
              ∙ sym (feed_full alg v c x (omega (arith, h.space, whole))))
            (process-Holds p c x h whole)
      | inr e ↦
          let lt = used_space-lt alg v c in
          let small : suc (length p.1) < block_length alg = ground (arith, e, h.space, lt) in
          subst₂ Holds (sym (absorb_inside p x small))
            (ap (λ (n : ℕ). copy_in alg n (x ∷ []) c) (sym h.space)
              ∙ sym (feed_inside alg v c x (omega (arith, h.space, small))))
            (copy_in-Holds p c x h small)
    ]

    -- An update holds what is absorbed.
    pub update-Holds :
        (p : List ℕ × List ℕ) (c : Context Count) (xs : List ℕ)
        → Holds p c
        → Holds (absorb_all p xs) (update alg c xs)
    unfolding absorb_all feed_all
    update-Holds p c xs h =
        subst (Holds (absorb_all p xs)) (sym (update-feed_all alg v c xs)) (all p c xs h)
      where
        all :
            (p : List ℕ × List ℕ) (c : Context Count) (xs : List ℕ)
            → Holds p c
            → Holds (absorb_all p xs) (feed_all alg v c xs)
        all p c [] h = h
        all p c (x ∷ xs) h = all (absorb p x) (feed alg v c x) xs (feed-Holds p c x h)
