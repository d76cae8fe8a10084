-- ===== src/Bech32/Checksum.antt =====
-- `polymod`, `expand_hrp`, `verify_checksum` and `create_checksum` of src/Bech32.cpp.
pub mod Linear
pub mod Verify
use aex_cpp_sdk.Base.{ℕ, ◌+◌, ◌-◌, ◌*◌, List, [], ◌∷◌, ◌++◌, map, Bool, ◌==◌, replicate}
use aex_cpp_sdk.Base.{bit_and, bit_xor, u8, u32, neg64, ◌<<◌, ◌>>◌}

-- `-((top >> i) & 1) & g`: the minus is on an `int` that the `unsigned long` constant widens.
unfoldable pub generator : ℕ → ℕ → ℕ → ℕ
generator top i g = bit_and (neg64 (bit_and (top >> i) 1)) g

-- One round of the loop of `polymod`.
unfoldable pub polymod_step : ℕ → ℕ → ℕ
polymod_step chk value =
    let top = u8 (chk >> 25) in
    u32 (
      bit_xor
        (bit_xor
          (bit_xor
            (bit_xor
              (bit_xor (bit_xor (bit_and chk 0x1ffffff << 5) value) (generator top 0 0x3b6a57b2))
              (generator top 1 0x26508e6d))
            (generator top 2 0x1ea119fa))
          (generator top 3 0x3d4233dd))
        (generator top 4 0x2a1462b3))

-- The loop from a given `chk`.
unfoldable pub polymod_from : ℕ → List ℕ → ℕ
polymod_from chk [] = chk
polymod_from chk (v ∷ vs) = polymod_from (polymod_step chk v) vs

-- `polymod`.
unfoldable pub polymod : List ℕ → ℕ
polymod values = polymod_from 1 values

-- `expand_hrp`: entry `i` is `c >> 5`, entry `i + size + 1` is `c & 0x1f`, with a 0 between.
unfoldable pub expand_hrp : List ℕ → List ℕ
expand_hrp hrp = map (λ c. c >> 5) hrp ++ (0 ∷ map (λ c. bit_and c 0x1f) hrp)

-- `verify_checksum`.
unfoldable pub verify_checksum : List ℕ → List ℕ → Bool
verify_checksum hrp values = polymod (expand_hrp hrp ++ values) == 1

-- `ret[i] = (mod >> (5 * (5 - i))) & 31`, for i from 0 to 5.
unfoldable pub checksum_digits : ℕ → List ℕ
checksum_digits m = map (λ i. bit_and (m >> (5 * (5 - i))) 31) (0 ∷ 1 ∷ 2 ∷ 3 ∷ 4 ∷ 5 ∷ [])

-- `create_checksum`: the polynomial of the data with six zeros appended.
unfoldable pub create_checksum : List ℕ → List ℕ → List ℕ
create_checksum hrp values =
    let enc = (expand_hrp hrp ++ values) ++ replicate 6 0 in
    checksum_digits (bit_xor (polymod enc) 1)
