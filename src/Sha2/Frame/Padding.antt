-- ===== src/Sha2/Frame/Padding.antt =====
-- The padding of `…_Final`, as bytes that are absorbed.
use aex_cpp_sdk.Base.{
  ℕ, suc, ◌+◌, ◌-◌, ◌*◌, ◌≤◌, ◌<◌, ◌≡◌, refl, sym, ap, ap₂, ◌∙◌, arith, List, [], ◌∷◌, ◌++◌, map,
  length, length-append, length-replicate, length-map, replicate-append, take, replicate, true,
  false, Bool-cases, ◌⊎◌, inl, inr, ltb, if◌then◌else◌, append_assoc, append-nil,
}
use aex_cpp_sdk.Sha2.Frame.{
  Algorithm, Context, block_length, short_block_length, load_words, store_words, copy_at, process,
  used_space, clear, pad_block, last_block, last,
}
use aex_cpp_sdk.Sha2.Frame.Bytes.{length-store_words}
use aex_cpp_sdk.Sha2.Frame.Memory.{take-copy_at, load_words-take}
use aex_cpp_sdk.Sha2.Frame.Stream.{copy_at-suc}
use aex_cpp_sdk.Sha2.Frame.Absorb.{
  length-load_words, words_of, absorb, absorb_all, Holds, written, full, absorb_full, absorb_inside,
}

module _ {Count : Type 0} (alg : Algorithm Count) where
  absorb_all-append :
      (p : List ℕ × List ℕ) (xs ys : List ℕ)
      → absorb_all alg p (xs ++ ys) ≡ absorb_all alg (absorb_all alg p xs) ys
  unfolding absorb_all
  absorb_all-append p [] ys = refl
  absorb_all-append p (x ∷ xs) ys = absorb_all-append (absorb alg p x) xs ys

  length-next :
      (q : List ℕ) (x : ℕ) (xs : List ℕ)
      → length (q ++ (x ∷ [])) + length xs ≡ length q + length (x ∷ xs)
  length-next q x xs = omega (arith, length-append q (x ∷ []))

  absorb_part :
      (state waiting xs : List ℕ)
      → length waiting + length xs < block_length alg
      → absorb_all alg (state, waiting) xs ≡ (state, waiting ++ xs)
  unfolding absorb_all
  absorb_part state waiting [] h = ap (λ (q : List ℕ). (state, q)) (sym (append-nil waiting))
  absorb_part state waiting (x ∷ xs) h =
      ap (λ (p : List ℕ × List ℕ). absorb_all alg p xs)
        (absorb_inside alg (state, waiting) x (omega (arith, h)))
      ∙ absorb_part state (waiting ++ (x ∷ [])) xs (omega (arith, h, length-next waiting x xs))
      ∙ ap (λ (q : List ℕ). (state, q)) (append_assoc waiting (x ∷ []) xs)

  absorb_block :
      (state waiting : List ℕ) (x : ℕ) (xs : List ℕ)
      → length waiting + length (x ∷ xs) ≡ block_length alg
      → absorb_all alg (state, waiting) (x ∷ xs)
        ≡ (alg.transform state (words_of alg 16 (waiting ++ (x ∷ xs))), [])
  unfolding absorb_all
  absorb_block state waiting x [] h = absorb_full alg (state, waiting) x (omega (arith, h))
  absorb_block state waiting x (y ∷ xs) h =
      ap (λ (p : List ℕ × List ℕ). absorb_all alg p (y ∷ xs))
        (absorb_inside alg (state, waiting) x (omega (arith, h)))
      ∙ absorb_block state (waiting ++ (x ∷ [])) y xs
          (omega (arith, h, length-next waiting x (y ∷ xs)))
      ∙ ap (λ (q : List ℕ). (alg.transform state (words_of alg 16 q), []))
          (append_assoc waiting (x ∷ []) (y ∷ xs))

  -- The zero bytes of the padding, after so many bytes that wait for a block.
  unfoldable pub padding_zeros : ℕ → ℕ
  padding_zeros waiting =
      if ltb (short_block_length alg) (suc waiting)
      then block_length alg - suc waiting + short_block_length alg
      else short_block_length alg - suc waiting

  -- The state after the padding: the byte 0x80, zeros, and the number of bits.
  unfoldable pub close : List ℕ × List ℕ → Count → List ℕ
  close p bits =
      let (state, waiting) = absorb_all alg p (0x80 ∷ replicate (padding_zeros (length p.1)) 0) in
      alg.transform state (words_of alg 14 waiting ++ alg.count_words bits)

  -- The first words of an array.
  first_words :
      (n : ℕ) (bytes part : List ℕ)
      → take (n * alg.word) bytes ≡ part
      → map alg.reverse (load_words alg.word n bytes) ≡ words_of alg n part
  unfolding words_of
  first_words n bytes part h =
      ap (map alg.reverse) (sym (load_words-take alg.word n bytes) ∙ ap (load_words alg.word n) h)

  -- The bytes that are cleared behind the mark.
  marked :
      (p : List ℕ × List ℕ) (c : Context Count) (stop : ℕ)
      → Holds alg p c
      → clear alg (suc (length p.1)) stop (copy_at (length p.1) (0x80 ∷ []) c.buffer)
        ≡ copy_at (length p.1) (0x80 ∷ replicate (stop - suc (length p.1)) 0) c.buffer
  unfolding clear
  marked p c stop h = copy_at-suc (length p.1) 0x80 (replicate (stop - suc (length p.1)) 0) c.buffer

  -- The last transform of a state and the bytes that wait.
  abbrev closed : List ℕ → Count → List ℕ × List ℕ → List ℕ
  closed count bits p = alg.transform p.0 (words_of alg 14 p.1 ++ count)

  close-absorbed :
      (p : List ℕ × List ℕ) (bits : Count) (count : ℕ) (q : List ℕ × List ℕ)
      → padding_zeros (length p.1) ≡ count
      → absorb_all alg p (0x80 ∷ replicate count 0) ≡ q
      → close p bits ≡ closed (alg.count_words bits) bits q
  unfolding close
  close-absorbed p bits count q z e =
      ap (closed (alg.count_words bits) bits)
        (ap (λ (n : ℕ). absorb_all alg p (0x80 ∷ replicate n 0)) z ∙ e)

  padding_zeros-short :
      (n : ℕ) → suc n ≤ short_block_length alg → padding_zeros n ≡ short_block_length alg - suc n
  unfolding padding_zeros
  padding_zeros-short n h =
      let no : ltb (short_block_length alg) (suc n) ≡ false = ground (arith, h) in rw no refl

  padding_zeros-long :
      (n : ℕ)
      → short_block_length alg < suc n
      → padding_zeros n ≡ block_length alg - suc n + short_block_length alg
  unfolding padding_zeros
  padding_zeros-long n h =
      let yes : ltb (short_block_length alg) (suc n) ≡ true = ground (arith, h) in rw yes refl

  -- The mark and the zeros up to a place.
  abbrev padding : ℕ → ℕ → List ℕ
  padding used stop = 0x80 ∷ replicate (stop - suc used) 0

  length-padding : (used stop : ℕ) → suc used ≤ stop → used + length (padding used stop) ≡ stop
  length-padding used stop h = omega (arith, h, length-replicate {A = ℕ} (stop - suc used) 0)

  module _ (p : List ℕ × List ℕ) (c : Context Count) (h : Holds alg p c) where
    abbrev mark : Context Count
    mark = record {
      state = c.state;
      bitcount = c.bitcount;
      buffer = copy_at (length p.1) (0x80 ∷ []) c.buffer;
    }

    short_last :
        suc (length p.1) ≤ short_block_length alg
        → 0 < alg.word
        → last_block alg (suc (length p.1)) mark ≡ close p c.bitcount
    unfolding last_block
    short_last small positive =
        let used = length p.1 in
        let short = short_block_length alg in
        let pad = padding used short in
        let size = length-padding used short small in
        let absorbed = absorb_part p.0 p.1 pad (omega (arith, size, positive)) in
        let start : take short (copy_at used pad c.buffer) ≡ p.1 ++ pad =
          ap (λ (n : ℕ). take n (copy_at used pad c.buffer)) (sym size)
          ∙ written alg p c pad h (omega (arith, size)) in
        ap₂ alg.transform h.state (
          ap (λ (ws : List ℕ). ws ++ alg.count_words c.bitcount)
            (ap (λ (b : List ℕ). map alg.reverse (load_words alg.word 14 b)) (marked p c short h)
              ∙ first_words 14 (copy_at used pad c.buffer) (p.1 ++ pad) start))
        ∙ sym (
            close-absorbed p c.bitcount (short - suc used) (p.0, p.1 ++ pad)
              (padding_zeros-short used small) absorbed)

    -- The block that the mark and zeros complete.
    long_block :
        length p.1 < block_length alg
        → map alg.reverse
            (load_words alg.word 16 (clear alg (suc (length p.1)) (block_length alg) mark.buffer))
          ≡ words_of alg 16 (p.1 ++ padding (length p.1) (block_length alg))
    unfolding words_of
    long_block below =
        ap (λ (b : List ℕ). map alg.reverse (load_words alg.word 16 b))
          (marked p c (block_length alg) h
            ∙ full alg p c (padding (length p.1) (block_length alg)) h
                (length-padding (length p.1) (block_length alg) below))

    long_absorbed :
        length p.1 < block_length alg
        → 0 < alg.word
        → absorb_all alg p
            (0x80 ∷ replicate (block_length alg - suc (length p.1) + short_block_length alg) 0)
          ≡ (
            alg.transform p.0 (words_of alg 16 (p.1 ++ padding (length p.1) (block_length alg))),
            replicate (short_block_length alg) 0,
          )
    long_absorbed below positive =
        let used = length p.1 in
        let missing = block_length alg - suc used in
        let short = short_block_length alg in
        ap (λ (xs : List ℕ). absorb_all alg p (0x80 ∷ xs)) (sym (replicate-append missing short 0))
        ∙ absorb_all-append p (0x80 ∷ replicate missing 0) (replicate short 0)
        ∙ ap (λ (q : List ℕ × List ℕ). absorb_all alg q (replicate short 0))
            (absorb_block p.0 p.1 0x80 (replicate missing 0)
              (length-padding used (block_length alg) below))
        ∙ absorb_part _ [] (replicate short 0)
            (omega (arith, length-replicate {A = ℕ} short 0, positive))

    long_last :
        short_block_length alg < suc (length p.1)
        → length p.1 < block_length alg
        → 0 < alg.word
        → last_block alg 0 (pad_block alg (suc (length p.1)) mark) ≡ close p c.bitcount
    unfolding last_block pad_block process clear
    long_last large below positive =
        let short = short_block_length alg in
        let block =
          map alg.reverse (
            load_words alg.word 16 (clear alg (suc (length p.1)) (block_length alg) mark.buffer)) in
        let memory = store_words alg.word block in
        let room : length memory ≡ block_length alg =
          length-store_words alg.word block
          ∙ ap (λ (n : ℕ). n * alg.word)
              (length-map (load_words alg.word 16 _) alg.reverse
                ∙ length-load_words alg.word 16 _) in
        let zeros = length-replicate {A = ℕ} short 0 in
        let none : short - 0 ≡ short = omega arith in
        let start : take short (copy_at 0 (replicate (short - 0) 0) memory) ≡ replicate short 0 =
          ap (λ (n : ℕ). take short (copy_at 0 (replicate n 0) memory)) none
          ∙ ap (λ (n : ℕ). take n (copy_at 0 (replicate short 0) memory)) (omega (arith, zeros))
          ∙ take-copy_at 0 (replicate short 0) memory (omega (arith, room, zeros)) in
        ap₂ alg.transform (ap₂ alg.transform h.state (long_block below)) (
          ap (λ (ws : List ℕ). ws ++ alg.count_words c.bitcount)
            (first_words 14 (copy_at 0 (replicate (short - 0) 0) memory) (replicate short 0) start))
        ∙ sym (
            close-absorbed p c.bitcount (block_length alg - suc (length p.1) + short) _
              (padding_zeros-long (length p.1) large) (long_absorbed below positive))

    -- The state that `…_Final` stores.
    pub last-close : length p.1 < block_length alg → 0 < alg.word → last alg c ≡ close p c.bitcount
    unfolding last
    last-close below positive =
        ap₂
          (λ (used next : ℕ).
            let m : Context Count = record {
              state = c.state;
              bitcount = c.bitcount;
              buffer = copy_at used (0x80 ∷ []) c.buffer;
            } in
            if ltb (short_block_length alg) next
            then last_block alg 0 (pad_block alg next m)
            else last_block alg next m)
          h.space next_used
        ∙ choose (Bool-cases (ltb (short_block_length alg) (suc (length p.1))))
      where
        next_used : used_space alg c + 1 ≡ suc (length p.1)
        next_used = omega (arith, h.space)

        choose :
            (ltb (short_block_length alg) (suc (length p.1)) ≡ true)
              ⊎ (ltb (short_block_length alg) (suc (length p.1)) ≡ false)
            → (if ltb (short_block_length alg) (suc (length p.1))
                then last_block alg 0 (pad_block alg (suc (length p.1)) mark)
                else last_block alg (suc (length p.1)) mark)
              ≡ close p c.bitcount
        choose (inl e) = rw e (long_last (ground (arith, e)) below positive)
        choose (inr e) = rw e (short_last (ground (arith, e)) positive)
