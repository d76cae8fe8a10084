-- ===== src/Ecdsa/Deterministic.antt =====
-- The deterministic random numbers of RFC 6979.
pub mod Bounds
use aex_cpp_sdk.Base.{ℕ, List, [], ◌∷◌, ◌++◌, take, replicate}
use aex_cpp_sdk.Bignum.Bytes.{bn_read_be}
use aex_cpp_sdk.Hmac.{hmac_sha256}

-- `rfc6979_state`.
pub record Rfc6979 : Type 0 where
  pub v : List ℕ
  pub k : List ℕ

-- The key and the value from the message `v, separator, extra`.
unfoldable pub mixed : Rfc6979 → ℕ → List ℕ → Rfc6979
mixed state separator extra =
    let k = hmac_sha256 state.k (state.v ++ (separator ∷ extra)) in
    record { v = hmac_sha256 k state.v; k = k }

-- `init_rfc6979`.
unfoldable pub init_rfc6979 : List ℕ → List ℕ → Rfc6979
init_rfc6979 priv_key hash =
    let bx = take 32 priv_key ++ take 32 hash in
    let start : Rfc6979 = record { v = replicate 32 1; k = replicate 32 0 } in
    mixed (mixed start 0x00 bx) 0x01 bx

-- `generate_rfc6979`: the number and the next state.
unfoldable pub generate_rfc6979 : Rfc6979 → List ℕ × Rfc6979
generate_rfc6979 state =
    let v = hmac_sha256 state.k state.v in
    let next = mixed (record { v = v; k = state.k }) 0x00 [] in (v, next)

-- `generate_k_rfc6979`.
unfoldable pub generate_k_rfc6979 : Rfc6979 → List ℕ × Rfc6979
generate_k_rfc6979 state = let (rnd, next) = generate_rfc6979 state in (bn_read_be rnd, next)
