-- ===== src/Bech32/ConvertBits/Loop.antt =====
-- The loops of `convertBits` keep the bit stream: what was written and what `acc` still holds are
-- what was read.
use aex_cpp_sdk.Base.{ℕ, zero, suc, ◌+◌, ◌-◌, ◌*◌, ◌%◌, ◌^◌, ◌≤◌, ◌<◌, ◌≡◌, refl, sym, ap, ap₂, ◌∙◌}
use aex_cpp_sdk.Base.{arith, List, [], ◌∷◌, ◌++◌, append-nil, append_assoc, inl, inr}
use aex_cpp_sdk.Base.{
  All, All-append, Bool-cases, leb, leb→le, bit_and, bit_or, bit_and-low, bit_or-fields,
}
use aex_cpp_sdk.Base.{fields-div, fields-mod, ◌>>◌}
use native.Mathlib.Nat.{mod-lt, one-le-pow, le_refl}
use aex_cpp_sdk.Bech32.ConvertBits.{State, push_loop, convert_step, convert_loop, maxv}
use aex_cpp_sdk.Bech32.ConvertBits.Stream.{bits, stream, bits-add, bits-mod, stream-append}

-- The stream that a state stands for, with digits of `w` bits written so far.
abbrev pub contents : ℕ → State → List ℕ
contents w s = stream w s.out ++ bits s.bits s.acc

pub stream_one : (w x : ℕ) → stream w (x ∷ []) ≡ bits w x
unfolding stream
stream_one w x = append-nil (bits w x)

module _ (frombits tobits : ℕ) where
  -- One digit moves from `acc` to `out`.
  push_one :
      (s : State)
      → tobits ≤ s.bits
      → stream tobits (s.out ++ (bit_and (s.acc >> (s.bits - tobits)) (maxv frombits tobits) ∷ []))
          ++ bits (s.bits - tobits) s.acc
        ≡ contents tobits s
  push_one s h =
      ap (λ l. l ++ bits (s.bits - tobits) s.acc)
        (stream-append tobits s.out (bit_and (s.acc >> (s.bits - tobits)) (2 ^ tobits - 1) ∷ [])
          ∙ ap (◌++◌ (stream tobits s.out)) (
              stream_one tobits _
              ∙ ap (bits tobits) masked
              ∙ bits-mod tobits tobits (s.acc >> (s.bits - tobits)) (le_refl tobits)))
      ∙ append_assoc (stream tobits s.out) (bits tobits (s.acc >> (s.bits - tobits)))
          (bits (s.bits - tobits) s.acc)
      ∙ ap (◌++◌ (stream tobits s.out))
          (sym (bits-add tobits (s.bits - tobits) s.acc) ∙ ap (λ (n : ℕ). bits n s.acc) total)
    where
      masked :
          bit_and (s.acc >> (s.bits - tobits)) (2 ^ tobits - 1)
          ≡ (s.acc >> (s.bits - tobits)) % 2 ^ tobits
      masked = bit_and-low tobits (s.acc >> (s.bits - tobits))

      total : tobits + (s.bits - tobits) ≡ s.bits
      total = omega arith

  push_loop-contents :
      (fuel : ℕ) (s : State)
      → contents tobits (push_loop frombits tobits fuel s) ≡ contents tobits s
  unfolding push_loop
  push_loop-contents zero s = refl
  push_loop-contents (suc fuel) s = elim (Bool-cases (leb tobits s.bits)) [
    | inl h ↦ rw h (push_loop-contents fuel _ ∙ push_one s (leb→le tobits s.bits h))
    | inr h ↦ rw h refl
  ]

  push_loop-acc : (fuel : ℕ) (s : State) → (push_loop frombits tobits fuel s).acc ≡ s.acc
  unfolding push_loop
  push_loop-acc zero s = refl
  push_loop-acc (suc fuel) s = elim (Bool-cases (leb tobits s.bits)) [
    | inl h ↦ rw h (push_loop-acc fuel _)
    | inr h ↦ rw h refl
  ]

  -- The fuel is enough: the loop leaves fewer than `tobits` bits.
  push_loop-bits-lt :
      (fuel : ℕ) (s : State)
      → 0 < tobits
      → s.bits ≤ fuel
      → (push_loop frombits tobits fuel s).bits < tobits
  unfolding push_loop
  push_loop-bits-lt zero s pos h = omega arith
  push_loop-bits-lt (suc fuel) s pos h = elim (Bool-cases (leb tobits s.bits)) [
    | inl e ↦ rw e (push_loop-bits-lt fuel _ pos (omega arith))
    | inr e ↦ rw e (ground arith)
  ]

  push_loop-All :
      (fuel : ℕ) (s : State)
      → All (λ x. x < 2 ^ tobits) s.out
      → All (λ x. x < 2 ^ tobits) (push_loop frombits tobits fuel s).out
  unfolding push_loop
  push_loop-All zero s h = h
  push_loop-All (suc fuel) s h = elim (Bool-cases (leb tobits s.bits)) [
    | inl e ↦ rw e (push_loop-All fuel _ (All-append _ s.out _ h (small, tt)))
    | inr e ↦ rw e h
  ]
    where
      small : bit_and (s.acc >> (s.bits - tobits)) (2 ^ tobits - 1) < 2 ^ tobits
      small =
          rw (bit_and-low tobits (s.acc >> (s.bits - tobits)))
            (mod-lt (s.acc >> (s.bits - tobits)) (one-le-pow tobits 2 (omega arith)))

  -- What `acc` holds after a value is shifted in.
  shift_in :
      (r acc value : ℕ)
      → r < tobits
      → value < 2 ^ frombits
      → bits
          (r + frombits)
          (bit_and (bit_or (acc * 2 ^ frombits) value) (2 ^ (frombits + tobits - 1) - 1))
        ≡ bits r acc ++ bits frombits value
  shift_in r acc value h small =
      ap (bits (r + frombits)) (bit_and-low (frombits + tobits - 1) _)
      ∙ bits-mod (r + frombits) (frombits + tobits - 1) _ (omega arith)
      ∙ ap (bits (r + frombits)) (bit_or-fields frombits acc value small)
      ∙ bits-add r frombits (acc * 2 ^ frombits + value)
      ∙ ap₂ ◌++◌ (ap (bits r) (fields-div frombits acc value small)) (
          sym (bits-mod frombits frombits _ (le_refl frombits))
          ∙ ap (bits frombits) (fields-mod frombits acc value small))

  convert_step-contents :
      (s : State) (value : ℕ)
      → s.bits < tobits
      → value < 2 ^ frombits
      → contents tobits (convert_step frombits tobits s value)
        ≡ contents tobits s ++ bits frombits value
  unfolding convert_step
  convert_step-contents s value h small =
      push_loop-contents (s.bits + frombits) _
      ∙ ap (◌++◌ (stream tobits s.out)) (shift_in s.bits s.acc value h small)
      ∙ sym (append_assoc (stream tobits s.out) (bits s.bits s.acc) (bits frombits value))

  convert_step-bits-lt :
      (s : State) (value : ℕ) → 0 < tobits → (convert_step frombits tobits s value).bits < tobits
  unfolding convert_step
  convert_step-bits-lt s value pos = push_loop-bits-lt (s.bits + frombits) _ pos (le_refl _)

  pub convert_loop-contents :
      (s : State) (values : List ℕ)
      → s.bits < tobits
      → All (λ x. x < 2 ^ frombits) values
      → contents tobits (convert_loop frombits tobits s values)
        ≡ contents tobits s ++ stream frombits values
  unfolding convert_loop stream
  convert_loop-contents s [] h small = sym (append-nil (contents tobits s))
  convert_loop-contents s (v ∷ vs) h (small, rest) =
      convert_loop-contents (convert_step frombits tobits s v) vs
        (convert_step-bits-lt s v (omega arith)) rest
      ∙ ap (λ l. l ++ stream frombits vs) (convert_step-contents s v h small)
      ∙ append_assoc (contents tobits s) (bits frombits v) (stream frombits vs)

  pub convert_loop-bits-lt :
      (s : State) (values : List ℕ)
      → s.bits < tobits
      → (convert_loop frombits tobits s values).bits < tobits
  unfolding convert_loop
  convert_loop-bits-lt s [] h = h
  convert_loop-bits-lt s (v ∷ vs) h =
      convert_loop-bits-lt (convert_step frombits tobits s v) vs
        (convert_step-bits-lt s v (omega arith))

  convert_step-All :
      (s : State) (value : ℕ)
      → All (λ x. x < 2 ^ tobits) s.out
      → All (λ x. x < 2 ^ tobits) (convert_step frombits tobits s value).out
  unfolding convert_step
  convert_step-All s value h = push_loop-All (s.bits + frombits) _ h

  pub convert_loop-All :
      (s : State) (values : List ℕ)
      → All (λ x. x < 2 ^ tobits) s.out
      → All (λ x. x < 2 ^ tobits) (convert_loop frombits tobits s values).out
  unfolding convert_loop
  convert_loop-All s [] h = h
  convert_loop-All s (v ∷ vs) h =
      convert_loop-All (convert_step frombits tobits s v) vs (convert_step-All s v h)
