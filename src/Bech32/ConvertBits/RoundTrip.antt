-- ===== src/Bech32/ConvertBits/RoundTrip.antt =====
-- Bytes regrouped into digits of 5 bits with padding, and back without: each undoes the other.
use aex_cpp_sdk.Base.{ℕ, zero, suc, ◌+◌, ◌-◌, ◌*◌, ◌/◌, ◌%◌, ◌^◌, ◌≤◌, ◌<◌, ◌≡◌, sym, ap, ap₂, ◌∙◌}
use aex_cpp_sdk.Base.{
  arith, List, [], ◌++◌, append-nil, append_assoc, length, length-append, inl, inr,
}
use aex_cpp_sdk.Base.{All, All-append, true, false, Bool-cases, ◌==◌, bit_and, bit_and-low}
use aex_cpp_sdk.Base.{fields-div, fields-mod, replicate, replicate-append, length-replicate, ◌<<◌}
use mathlib.Core.Path.{subst}
use native.Mathlib.Nat.{mod-lt, one-le-pow, le_refl, add-zero}
use aex_cpp_sdk.Bech32.ConvertBits.{State, convert_loop, convert_end, convert_bits}
use aex_cpp_sdk.Bech32.ConvertBits.Stream.{
  bits, stream, bits-add, bits-mod, bits-zero, stream-append,
}
use aex_cpp_sdk.Bech32.ConvertBits.Stream.{
  length-bits, length-stream, stream-injective, append-injective,
}
use aex_cpp_sdk.Bech32.ConvertBits.Stream.{bits-eq-zero}
use aex_cpp_sdk.Bech32.ConvertBits.Loop.{contents, convert_loop-contents, convert_loop-bits-lt}
use aex_cpp_sdk.Bech32.ConvertBits.Loop.{convert_loop-All, stream_one}

-- The remaining bits, shifted to the top of a digit.
bits-shifted : (w b acc : ℕ) → b ≤ w → bits w (acc << (w - b)) ≡ bits b acc ++ replicate (w - b) 0
bits-shifted w b acc h =
    ap (λ (n : ℕ). bits n (acc << (w - b))) total
    ∙ bits-add b (w - b) (acc << (w - b))
    ∙ ap₂ ◌++◌ (ap (bits b) high)
        (sym (bits-mod (w - b) (w - b) _ (le_refl _)) ∙ ap (bits (w - b)) low ∙ bits-zero (w - b))
  where
    total : w ≡ b + (w - b)
    total = omega arith

    room : 0 < 2 ^ (w - b)
    room = one-le-pow (w - b) 2 (omega arith)

    high : (acc << (w - b)) / 2 ^ (w - b) ≡ acc
    high =
        ap (λ (t : ℕ). t / 2 ^ (w - b)) (sym (add-zero (acc << (w - b))))
        ∙ fields-div (w - b) acc 0 room

    low : (acc << (w - b)) % 2 ^ (w - b) ≡ 0
    low =
        ap (λ (t : ℕ). t % 2 ^ (w - b)) (sym (add-zero (acc << (w - b))))
        ∙ fields-mod (w - b) acc 0 room

-- The end with padding completes the last digit with `padding` zeros.
pub padding : ℕ → ℕ → ℕ
padding w zero = 0
padding w (suc b) = w - suc b

padding-lt : (w b : ℕ) → 0 < w → padding w b < w
unfolding padding
padding-lt w zero h = h
padding-lt w (suc b) h = omega arith

convert_end-contents :
    (frombits tobits acc b : ℕ) (out : List ℕ)
    → b ≤ tobits
    → let s : State = record { acc = acc; bits = b; out = out } in
      stream tobits (convert_end frombits tobits true s).1
      ≡ contents tobits s ++ replicate (padding tobits b) 0
unfolding convert_end padding bits
convert_end-contents frombits tobits acc zero out h =
    sym (append-nil (stream tobits out ++ []) ∙ append-nil (stream tobits out))
convert_end-contents frombits tobits acc (suc b) out h = rw test (
    stream-append tobits out _
    ∙ ap (◌++◌ (stream tobits out)) (
        stream_one tobits _
        ∙ ap (bits tobits) (bit_and-low tobits (acc << (tobits - suc b)))
        ∙ bits-mod tobits tobits _ (le_refl tobits)
        ∙ bits-shifted tobits (suc b) acc h)
    ∙ sym (append_assoc (stream tobits out) (bits (suc b) acc) (replicate (tobits - suc b) 0)))
  where
    test : (suc b == 0) ≡ false
    test = ground arith

convert_end-All :
    (frombits tobits : ℕ) (s : State)
    → All (λ x. x < 2 ^ tobits) s.out
    → All (λ x. x < 2 ^ tobits) (convert_end frombits tobits true s).1
unfolding convert_end
convert_end-All frombits tobits s h = elim (Bool-cases (s.bits == 0)) [
  | inl e ↦ rw e h
  | inr e ↦ rw e (All-append _ s.out _ h (small, tt))
]
  where
    small : bit_and (s.acc << (tobits - s.bits)) (2 ^ tobits - 1) < 2 ^ tobits
    small =
        rw (bit_and-low tobits (s.acc << (tobits - s.bits)))
          (mod-lt (s.acc << (tobits - s.bits)) (one-le-pow tobits 2 (omega arith)))

-- The end without padding accepts exactly when fewer than `frombits` bits are left and all are 0.
convert_end-accepts :
    (frombits tobits : ℕ) (s : State)
    → s.bits < frombits
    → s.bits ≤ tobits
    → bits s.bits s.acc ≡ replicate s.bits 0
    → (convert_end frombits tobits false s).0 ≡ true
unfolding convert_end
convert_end-accepts frombits tobits s few h zeros =
    ground (arith, bit_and-low tobits (s.acc << (tobits - s.bits)), rest)
  where
    rest : (s.acc << (tobits - s.bits)) % 2 ^ tobits ≡ 0
    rest = bits-eq-zero tobits (s.acc << (tobits - s.bits)) (
        bits-shifted tobits s.bits s.acc h
        ∙ ap (λ l. l ++ replicate (tobits - s.bits) 0) zeros
        ∙ replicate-append s.bits (tobits - s.bits) 0
        ∙ ap (λ (n : ℕ). replicate n 0) (omega arith))

pub convert_end_accepted :
    (frombits tobits : ℕ) (s : State)
    → s.bits ≤ tobits
    → (convert_end frombits tobits false s).0 ≡ true
    → (s.bits < frombits) × (bits s.bits s.acc ≡ replicate s.bits 0)
unfolding convert_end
convert_end_accepted frombits tobits s h e = (
  ground arith,
  (append-injective (bits s.bits s.acc) (replicate s.bits 0) (replicate (tobits - s.bits) 0)
      (replicate (tobits - s.bits) 0) (length-bits s.bits s.acc ∙ sym (length-replicate s.bits 0))
      (sym (bits-shifted tobits s.bits s.acc h)
        ∙ sym (bits-mod tobits tobits _ (le_refl tobits))
        ∙ ap (bits tobits) rest
        ∙ bits-zero tobits
        ∙ ap (λ (n : ℕ). replicate n 0) total
        ∙ sym (replicate-append s.bits (tobits - s.bits) 0))).0,
)
  where
    rest : (s.acc << (tobits - s.bits)) % 2 ^ tobits ≡ 0
    rest = ground (arith, bit_and-low tobits (s.acc << (tobits - s.bits)))

    total : tobits ≡ s.bits + (tobits - s.bits)
    total = omega arith

-- Both calls of the code start from an empty vector.
abbrev pub start : State
start = record { acc = 0; bits = 0; out = [] }

module _ (bytes : List ℕ) (small : All (λ x. x < 2 ^ 8) bytes) where
  -- The state before the padding is written.
  abbrev pub unpadded : State
  unpadded = convert_loop 8 5 start bytes

  abbrev pub pad_length : ℕ
  pad_length = padding 5 unpadded.bits

  abbrev pub digits : List ℕ
  digits = (convert_bits 8 5 true [] bytes).1

  pub stream-digits : stream 5 digits ≡ stream 8 bytes ++ replicate pad_length 0
  unfolding convert_bits convert_loop stream convert_end bits
  stream-digits =
      convert_end-contents 8 5 unpadded.acc unpadded.bits unpadded.out
        (omega (arith, convert_loop-bits-lt 8 5 start bytes (omega arith)))
      ∙ ap (λ l. l ++ replicate pad_length 0)
          (convert_loop-contents 8 5 start bytes (omega arith) small)

  pub digits-All : All (λ x. x < 2 ^ 5) digits
  unfolding convert_bits
  digits-All = convert_end-All 8 5 unpadded (convert_loop-All 8 5 start bytes tt)

  pub pad_length-lt : pad_length < 5
  pad_length-lt = padding-lt 5 unpadded.bits (omega arith)

  -- The bits of the bytes and the padding, counted in digits.
  pub length-digits : length digits * 5 ≡ length bytes * 8 + pad_length
  length-digits =
      sym (length-stream 5 digits)
      ∙ ap length stream-digits
      ∙ length-append (stream 8 bytes) (replicate pad_length 0)
      ∙ ap₂ ◌+◌ (length-stream 8 bytes) (length-replicate pad_length 0)

module _ (values : List ℕ) (small : All (λ x. x < 2 ^ 5) values) where
  -- The state after digits of 5 bits are read.
  abbrev pub gathered : State
  gathered = convert_loop 5 8 start values

  pub stream-gathered : stream 8 gathered.out ++ bits gathered.bits gathered.acc ≡ stream 5 values
  unfolding stream bits
  stream-gathered = convert_loop-contents 5 8 start values (omega arith) small

  pub gathered-lt : gathered.bits < 8
  gathered-lt = convert_loop-bits-lt 5 8 start values (omega arith)

  pub length-gathered : length gathered.out * 8 + gathered.bits ≡ length values * 5
  length-gathered =
      ap₂ ◌+◌ (sym (length-stream 8 gathered.out)) (sym (length-bits gathered.bits gathered.acc))
      ∙ sym (length-append (stream 8 gathered.out) (bits gathered.bits gathered.acc))
      ∙ ap length stream-gathered
      ∙ length-stream 5 values

  gathered_All : All (λ x. x < 2 ^ 8) gathered.out
  gathered_All = convert_loop-All 5 8 start values tt

-- `convertBits<5, 8, false>` accepts the digits that `convertBits<8, 5, true>` makes of bytes, and
-- gives back the bytes.
pub convert_bits-round_trip :
    (bytes : List ℕ)
    → All (λ x. x < 2 ^ 8) bytes
    → convert_bits 5 8 false [] (convert_bits 8 5 true [] bytes).1 ≡ (true, bytes)
unfolding convert_bits convert_end
convert_bits-round_trip bytes small =
    let values = digits bytes small in
    let values_small = digits-All bytes small in
    let s = gathered values values_small in
    let few : s.bits < 8 = gathered-lt values values_small in
    let counts : length s.out * 8 + s.bits ≡ length bytes * 8 + pad_length bytes small =
      length-gathered values values_small ∙ length-digits bytes small in
    let short : pad_length bytes small < 5 = pad_length-lt bytes small in
    let same_length : length s.out ≡ length bytes = omega arith in
    let same_bits : s.bits ≡ pad_length bytes small = omega arith in
    let parts =
      append-injective (stream 8 s.out) (stream 8 bytes) (bits s.bits s.acc)
        (replicate (pad_length bytes small) 0)
        (length-stream 8 s.out ∙ ap (λ (n : ℕ). n * 8) same_length ∙ sym (length-stream 8 bytes))
        (stream-gathered values values_small ∙ stream-digits bytes small) in
    let accepted : (convert_end 5 8 false s).0 ≡ true =
      convert_end-accepts 5 8 s (omega arith) (omega arith)
        (parts.1 ∙ ap (λ (n : ℕ). replicate n 0) (sym same_bits)) in
    let same : s.out ≡ bytes =
      stream-injective 8 s.out bytes (gathered_All values values_small) small same_length parts.0 in
    λ i. (accepted i, same i)

-- If `convertBits<5, 8, false>` accepts digits below 32, its output is bytes whose digits by
-- `convertBits<8, 5, true>` are the same digits: no second text of the same bytes is accepted.
pub convert_bits_canonical :
    (values : List ℕ) {bytes : List ℕ}
    → All (λ x. x < 2 ^ 5) values
    → convert_bits 5 8 false [] values ≡ (true, bytes)
    → All (λ x. x < 2 ^ 8) bytes × ((convert_bits 8 5 true [] bytes).1 ≡ values)
unfolding convert_bits convert_end
convert_bits_canonical values {bytes} small e =
    let s = gathered values small in
    let same : s.out ≡ bytes = ap (λ r. r.1) e in
    let few =
      convert_end_accepted 5 8 s (omega (arith, gathered-lt values small)) (ap (λ r. r.0) e) in
    let bytes_small : All (λ x. x < 2 ^ 8) s.out = gathered_All values small in
    let counts : length (digits s.out bytes_small) * 5
        ≡ length s.out * 8 + pad_length s.out bytes_small =
      length-digits s.out bytes_small in
    let counts' = length-gathered values small in
    let short : pad_length s.out bytes_small < 5 = pad_length-lt s.out bytes_small in
    let same_bits : s.bits ≡ pad_length s.out bytes_small = omega arith in
    let same_stream : stream 5 (digits s.out bytes_small) ≡ stream 5 values =
      stream-digits s.out bytes_small
      ∙ ap (λ (n : ℕ). stream 8 s.out ++ replicate n 0) (sym same_bits)
      ∙ ap (◌++◌ (stream 8 s.out)) (sym few.1)
      ∙ stream-gathered values small in
    let back : digits s.out bytes_small ≡ values =
      stream-injective 5 (digits s.out bytes_small) values (digits-All s.out bytes_small) small
        (omega arith) same_stream in
    (
      subst (All (λ x. x < 2 ^ 8)) same bytes_small,
      ap (λ l. (convert_bits 8 5 true [] l).1) (sym same) ∙ back,
    )
