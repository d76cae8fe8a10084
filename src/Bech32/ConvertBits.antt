-- ===== src/Bech32/ConvertBits.antt =====
-- `convertBits<frombits, tobits, pad>` of src/Bech32.h. `acc` and `bits` are `int`s that stay in range:
-- `acc` is below `2^(frombits + tobits - 1)`, at most 2^12, before each shift by `frombits`.
pub mod Stream
pub mod Loop
pub mod RoundTrip
use aex_cpp_sdk.Base.{ℕ, zero, suc, ◌+◌, ◌-◌, ◌^◌, List, [], ◌∷◌, ◌++◌, Bool, true, false}
use aex_cpp_sdk.Base.{◌||◌, not, leb, ◌==◌, if◌then◌else◌, bit_and, bit_or, ◌<<◌, ◌>>◌}

-- The locals of the function and the vector that it appends to.
pub record State : Type 0 where
  pub acc : ℕ
  pub bits : ℕ
  pub out : List ℕ

module _ (frombits tobits : ℕ) where
  abbrev pub maxv : ℕ
  maxv = 2 ^ tobits - 1

  abbrev pub max_acc : ℕ
  max_acc = 2 ^ (frombits + tobits - 1) - 1

  -- `while (bits >= tobits)`. A round takes `tobits` bits off, so `bits` rounds are enough.
  unfoldable pub push_loop : ℕ → State → State
  push_loop zero s = s
  push_loop (suc fuel) s =
      let bits' = s.bits - tobits in
      let rest = push_loop fuel (record {
        acc = s.acc;
        bits = bits';
        out = s.out ++ (bit_and (s.acc >> bits') maxv ∷ []);
      }) in
      if leb tobits s.bits then rest else s

  -- The body of the `for` loop on one input value.
  unfoldable pub convert_step : State → ℕ → State
  convert_step s value = push_loop (s.bits + frombits) (record {
    acc = bit_and (bit_or (s.acc << frombits) value) max_acc;
    bits = s.bits + frombits;
    out = s.out;
  })

  unfoldable pub convert_loop : State → List ℕ → State
  convert_loop s [] = s
  convert_loop s (v ∷ vs) = convert_loop (convert_step s v) vs

  -- `if (pad) … else if … return false; return true`: the flag and the vector.
  unfoldable pub convert_end : Bool → State → Bool × List ℕ
  convert_end true s = (
    true,
    if s.bits == 0 then s.out else s.out ++ (bit_and (s.acc << (tobits - s.bits)) maxv ∷ []),
  )
  convert_end false s =
      (not (leb frombits s.bits || not (bit_and (s.acc << (tobits - s.bits)) maxv == 0)), s.out)

  -- `convertBits`, appending to `out`.
  unfoldable pub convert_bits : Bool → List ℕ → List ℕ → Bool × List ℕ
  convert_bits pad out inp =
      convert_end pad (convert_loop (record { acc = 0; bits = 0; out = out }) inp)
