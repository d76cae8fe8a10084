-- ===== src/Sha2/Frame/Stream.antt =====
-- An update by a byte string is an update by each of its bytes, so it does not matter how a message is
-- cut into pieces.
use aex_cpp_sdk.Base.{
  ℕ, zero, suc, ◌+◌, ◌-◌, ◌*◌, ◌/◌, ◌%◌, ◌≤◌, ◌<◌, ◌<<◌, ◌>>◌, ◌≡◌, refl, sym, ap, ◌∙◌,
}
use aex_cpp_sdk.Base.{
  List, [], ◌∷◌, ◌++◌, length, take, drop, ltb, leb, ◌==◌, if◌then◌else◌, true, false,
}
use aex_cpp_sdk.Base.{Bool-cases, inl, inr, arith, length-take, length-drop, take-append-drop}
use native.Mathlib.Nat.{mod-lt, div-add-mod'}
use aex_cpp_sdk.Sha2.Frame.{
  Algorithm, Context, block_length, overwrite, copy_at, process, used_space,
}
use aex_cpp_sdk.Sha2.Frame.{copy_in, left_overs, blocks, all_blocks, update}

pub copy_at-suc :
    (used x : ℕ) (xs buffer : List ℕ)
    → copy_at (suc used) xs (copy_at used (x ∷ []) buffer) ≡ copy_at used (x ∷ xs) buffer
unfolding copy_at overwrite
copy_at-suc zero x xs [] = refl
copy_at-suc zero x xs (b ∷ bs) = refl
copy_at-suc (suc used) x xs [] = refl
copy_at-suc (suc used) x xs (b ∷ bs) = ap (b ∷◌) (copy_at-suc used x xs bs)

-- What a bit counter must do: count whole bytes, up to a block.
pub record IsCounting {Count : Type 0} (alg : Algorithm Count) : Type 0 where
  pub below : (b : Count) → (alg.low b >> 3) % block_length alg < block_length alg
  pub fits :
      (b : Count) (n : ℕ)
      → (alg.low b >> 3) % block_length alg + n < block_length alg
      → (alg.low (alg.add_bits b (n << 3)) >> 3) % block_length alg
        ≡ (alg.low b >> 3) % block_length alg + n
  pub fills :
      (b : Count) (n : ℕ)
      → (alg.low b >> 3) % block_length alg + n ≡ block_length alg
      → (alg.low (alg.add_bits b (n << 3)) >> 3) % block_length alg ≡ 0
  pub adds :
      (b : Count) (m n : ℕ)
      → alg.add_bits (alg.add_bits b (m << 3)) (n << 3) ≡ alg.add_bits b ((m + n) << 3)

module _ {Count : Type 0} (alg : Algorithm Count) (v : IsCounting alg) where
  -- One byte: it goes to the buffer, and a buffer that is full goes through the transform.
  unfoldable pub feed : Context Count → ℕ → Context Count
  feed c x =
      let next = copy_in alg (used_space alg c) (x ∷ []) c in
      if suc (used_space alg c) == block_length alg then process alg next else next

  unfoldable pub feed_all : Context Count → List ℕ → Context Count
  feed_all c [] = c
  feed_all c (x ∷ xs) = feed_all (feed c x) xs

  feed_all-append :
      (c : Context Count) (xs ys : List ℕ) → feed_all c (xs ++ ys) ≡ feed_all (feed_all c xs) ys
  unfolding feed_all
  feed_all-append c [] ys = refl
  feed_all-append c (x ∷ xs) ys = feed_all-append (feed c x) xs ys

  pub used_space-lt : (c : Context Count) → used_space alg c < block_length alg
  unfolding used_space
  used_space-lt c = v.below c.bitcount

  pub used_space-copy_in :
      (c : Context Count) (used : ℕ) (xs : List ℕ)
      → used_space alg c + length xs < block_length alg
      → used_space alg (copy_in alg used xs c) ≡ used_space alg c + length xs
  unfolding used_space copy_in
  used_space-copy_in c used xs h = v.fits c.bitcount (length xs) h

  pub used_space-process :
      (c : Context Count) (used : ℕ) (xs : List ℕ)
      → used_space alg c + length xs ≡ block_length alg
      → used_space alg (process alg (copy_in alg used xs c)) ≡ 0
  unfolding used_space process copy_in
  used_space-process c used xs h = v.fills c.bitcount (length xs) h

  copy_in-cons :
      (c : Context Count) (used x : ℕ) (xs : List ℕ)
      → copy_in alg (suc used) xs (copy_in alg used (x ∷ []) c) ≡ copy_in alg used (x ∷ xs) c
  unfolding copy_in
  copy_in-cons c used x xs =
      let count : alg.add_bits (alg.add_bits c.bitcount (1 << 3)) (length xs << 3)
          ≡ alg.add_bits c.bitcount (suc (length xs) << 3) =
        v.adds c.bitcount 1 (length xs)
        ∙ ap (λ (n : ℕ). alg.add_bits c.bitcount (n << 3)) (omega arith) in
      λ i. record { state = c.state; bitcount = count i; buffer = copy_at-suc used x xs c.buffer i }

  pub feed_inside :
      (c : Context Count) (x : ℕ)
      → suc (used_space alg c) < block_length alg
      → feed c x ≡ copy_in alg (used_space alg c) (x ∷ []) c
  unfolding feed
  feed_inside c x h =
      let no : (suc (used_space alg c) == block_length alg) ≡ false = ground arith in rw no refl

  pub feed_full :
      (c : Context Count) (x : ℕ)
      → suc (used_space alg c) ≡ block_length alg
      → feed c x ≡ process alg (copy_in alg (used_space alg c) (x ∷ []) c)
  unfolding feed
  feed_full c x h =
      let yes : (suc (used_space alg c) == block_length alg) ≡ true = ground arith in rw yes refl

  fill_part :
      (c : Context Count) (x : ℕ) (xs : List ℕ)
      → used_space alg c + suc (length xs) < block_length alg
      → feed_all c (x ∷ xs) ≡ copy_in alg (used_space alg c) (x ∷ xs) c
  unfolding feed_all
  fill_part c x [] h = feed_inside c x (omega arith)
  fill_part c x (y ∷ ys) h =
      let u = used_space alg c in
      let next = copy_in alg u (x ∷ []) c in
      let space : used_space alg next ≡ suc u =
        used_space-copy_in c u (x ∷ []) (omega arith) ∙ omega arith in
      ap (λ (d : Context Count). feed_all d (y ∷ ys)) (feed_inside c x (omega arith))
      ∙ fill_part next y ys (omega arith)
      ∙ ap (λ (n : ℕ). copy_in alg n (y ∷ ys) next) space
      ∙ copy_in-cons c u x (y ∷ ys)

  fill_block :
      (c : Context Count) (x : ℕ) (xs : List ℕ)
      → used_space alg c + suc (length xs) ≡ block_length alg
      → feed_all c (x ∷ xs) ≡ process alg (copy_in alg (used_space alg c) (x ∷ xs) c)
  unfolding feed_all
  fill_block c x [] h = feed_full c x (omega arith)
  fill_block c x (y ∷ ys) h =
      let u = used_space alg c in
      let next = copy_in alg u (x ∷ []) c in
      let space : used_space alg next ≡ suc u =
        used_space-copy_in c u (x ∷ []) (omega arith) ∙ omega arith in
      ap (λ (d : Context Count). feed_all d (y ∷ ys)) (feed_inside c x (omega arith))
      ∙ fill_block next y ys (omega arith)
      ∙ ap (λ (n : ℕ). process alg (copy_in alg n (y ∷ ys) next)) space
      ∙ ap (process alg) (copy_in-cons c u x (y ∷ ys))

  fill_whole :
      (c : Context Count) (xs : List ℕ)
      → 0 < length xs
      → used_space alg c + length xs ≡ block_length alg
      → feed_all c xs ≡ process alg (copy_in alg (used_space alg c) xs c)
  fill_whole c [] some h = absurd (omega arith)
  fill_whole c (x ∷ xs) some h = fill_block c x xs (omega arith)

  left_overs-feed_all :
      (c : Context Count) (xs : List ℕ)
      → used_space alg c ≡ 0
      → length xs < block_length alg
      → left_overs alg xs c ≡ feed_all c xs
  unfolding left_overs feed_all
  left_overs-feed_all c [] empty h = refl
  left_overs-feed_all c (x ∷ xs) empty h =
      let positive : ltb 0 (suc (length xs)) ≡ true = ground arith in
      rw positive (
        ap (λ (n : ℕ). copy_in alg n (x ∷ xs) c) (sym empty) ∙ sym (fill_part c x xs (omega arith)))

  -- The lengths that a number of rounds is enough for.
  unfoldable reach : ℕ → ℕ
  reach zero = block_length alg
  reach (suc n) = block_length alg + reach n

  reach-mul : (n : ℕ) → reach n ≡ n * block_length alg + block_length alg
  unfolding reach
  reach-mul zero = omega arith
  reach-mul (suc n) = omega (arith, reach-mul n)

  blocks-feed_all :
      (fuel : ℕ) (xs : List ℕ) (c : Context Count)
      → used_space alg c ≡ 0
      → length xs < reach fuel
      → blocks alg fuel xs c ≡ feed_all c xs
  unfolding blocks reach
  blocks-feed_all zero xs c empty h = left_overs-feed_all c xs empty h
  blocks-feed_all (suc fuel) xs c empty h = elim (Bool-cases (leb (block_length alg) (length xs))) [
    | inl whole ↦
        let size = block_length alg in
        let positive : 0 < size = omega (arith, used_space-lt c) in
        let enough : size ≤ length xs = ground (arith, whole) in
        let first : length (take size xs) ≡ size = length-take size xs ∙ omega arith in
        let full : used_space alg c + length (take size xs) ≡ size = omega arith in
        let next = process alg (copy_in alg 0 (take size xs) c) in
        let fed : feed_all c (take size xs) ≡ next =
          fill_whole c (take size xs) (omega arith) full
          ∙ ap (λ (n : ℕ). process alg (copy_in alg n (take size xs) c)) empty in
        let rest =
          blocks-feed_all fuel (drop size xs) next (used_space-process c 0 (take size xs) full)
            (omega (arith, length-drop size xs)) in
        rw whole (
          rest
          ∙ ap (λ (d : Context Count). feed_all d (drop size xs)) (sym fed)
          ∙ sym (feed_all-append c (take size xs) (drop size xs))
          ∙ ap (feed_all c) (take-append-drop size xs))
    | inr part ↦ rw part (left_overs-feed_all c xs empty (ground (arith, part)))
  ]

  all_blocks-feed_all :
      (xs : List ℕ) (c : Context Count) → used_space alg c ≡ 0 → all_blocks alg xs c ≡ feed_all c xs
  unfolding all_blocks
  all_blocks-feed_all xs c empty =
      let size = block_length alg in
      let positive : 0 < size = omega (arith, used_space-lt c) in
      blocks-feed_all (length xs / size) xs c empty (
        omega (
          arith,
          reach-mul (length xs / size),
          div-add-mod' (length xs) size,
          mod-lt (length xs) {m = size} positive,
        ))

  -- An update by a string is an update by each of its bytes.
  pub update-feed_all : (c : Context Count) (xs : List ℕ) → update alg c xs ≡ feed_all c xs
  unfolding update feed_all
  update-feed_all c [] = refl
  update-feed_all c (x ∷ xs) =
      let more : (suc (length xs) == 0) ≡ false = ground arith in
      elim (Bool-cases (ltb 0 (used_space alg c))) [
        | inr none ↦ rw (more, none) (all_blocks-feed_all (x ∷ xs) c (ground (arith, none)))
        | inl some ↦
            elim (Bool-cases (leb (block_length alg - used_space alg c) (suc (length xs)))) [
              | inl enough ↦
                  let free = block_length alg - used_space alg c in
                  let head = take free (x ∷ xs) in
                  let lt = used_space-lt c in
                  let le : free ≤ suc (length xs) = ground (arith, enough) in
                  let size : length head ≡ free = length-take free (x ∷ xs) ∙ omega arith in
                  let full : used_space alg c + length head ≡ block_length alg = omega arith in
                  let next = process alg (copy_in alg (used_space alg c) head c) in
                  rw (more, some, enough)
                    (all_blocks-feed_all (drop free (x ∷ xs)) next
                        (used_space-process c (used_space alg c) head full)
                      ∙ ap (λ (d : Context Count). feed_all d (drop free (x ∷ xs)))
                          (sym (fill_whole c head (omega arith) full))
                      ∙ sym (feed_all-append c head (drop free (x ∷ xs)))
                      ∙ ap (feed_all c) (take-append-drop free (x ∷ xs)))
              | inr few ↦
                  let lt = used_space-lt c in
                  rw (more, some, few) (sym (fill_part c x xs (ground (arith, few, lt))))
            ]
      ]

  pub update-append :
      (c : Context Count) (xs ys : List ℕ)
      → update alg c (xs ++ ys) ≡ update alg (update alg c xs) ys
  update-append c xs ys =
      update-feed_all c (xs ++ ys)
      ∙ feed_all-append c xs ys
      ∙ ap (λ (d : Context Count). feed_all d ys) (sym (update-feed_all c xs))
      ∙ sym (update-feed_all (update alg c xs) ys)
