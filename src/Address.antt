-- ===== src/Address.antt =====
-- src/Address.cpp and src/Address.h: an address is a human-readable part and a key hash, with its text
-- in Bech32.
pub mod RoundTrip
pub mod Validity
use aex_cpp_sdk.Base.{ℕ, List, [], ◌∷◌, Bool, true, false, ◌||◌, ◌&&◌, not, ltb, ◌==◌}
use aex_cpp_sdk.Base.{if◌then◌else◌, length, drop, get_or, bytes_eq}
use aex_cpp_sdk.Bech32.Charset.{codes}
use aex_cpp_sdk.Bech32.Codec
use aex_cpp_sdk.Bech32.ConvertBits.{convert_bits}

-- `binanceHRP` and `binanceTestHRP`.
abbrev pub binance_hrp : List ℕ
binance_hrp = codes "bnb"

abbrev pub binance_test_hrp : List ℕ
binance_test_hrp = codes "tbnb"

pub record Address : Type 0 where
  pub hrp : List ℕ
  pub key_hash : List ℕ

-- `Address()`.
abbrev pub no_address : Address
no_address = record { hrp = []; key_hash = [] }

-- `dec.second.empty()`.
abbrev pub is_empty : List ℕ → Bool
is_empty [] = true
is_empty (x ∷ xs) = false

-- `Address::isValid`.
pub is_valid : List ℕ → Bool
is_valid addr =
    let (hrp, values) = Codec.decode addr in
    let (success, conv) = convert_bits 5 8 false [] (drop 1 values) in
    let version = get_or values 0 0 in
    if is_empty values
    then false
    else not (
        not success
        || (ltb (length conv) 2
            || (ltb 40 (length conv)
                || (ltb 16 version
                    || (version == 0 && (not (length conv == 20) && not (length conv == 32)))))))

-- `Address::decode`: the address and the success flag. The local `test` is not used.
unfoldable pub decode : List ℕ → Address × Bool
decode addr =
    let (hrp, values) = Codec.decode addr in
    let (success, conv) = convert_bits 5 8 false [] values in
    if is_empty values
    then (no_address, false)
    else if bytes_eq hrp binance_hrp || bytes_eq hrp binance_test_hrp
    then if not success || (ltb (length conv) 2 || ltb 40 (length conv))
      then (no_address, false)
      else (record { hrp = hrp; key_hash = conv }, true)
    else (no_address, false)

-- `Address::encode`: the text, or the empty string if it does not decode.
unfoldable pub encode : Address → List ℕ
encode a =
    let (flag, enc) = convert_bits 8 5 true [] a.key_hash in
    let result = Codec.encode a.hrp enc in
    let (back, success) = decode result in if success then result else []
