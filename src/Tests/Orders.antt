-- ===== src/Tests/Orders.antt =====
-- Orders, their JSON and their bytes, and the theorems on them.
use aex_cpp_sdk.Base.{pos, negsuc}
use aex_cpp_sdk.Base.{ℕ, zero, suc, ◌+◌, ◌-◌, ◌*◌, ◌/◌, ◌%◌, ◌≡◌, ◌↔◌, refl, arith}
use aex_cpp_sdk.Base.{List, [], ◌∷◌, ◌++◌, Option, none, some}
use aex_cpp_sdk.Base.{Bool-cases, inl, inr, true, false, ltb, if◌then◌else◌, replicate}
use aex_cpp_sdk.Bech32.Charset.{codes}
use aex_cpp_sdk.Messages.{
  Token, Send, CancelOrder, cancel_order, send_order, other, Signer, returned, thrown,
  invalid_argument,
}
use aex_cpp_sdk.Serialization.{
  JsonLibrary, decimal, decimal_text, to_string, order_json, dumped, preimage_json,
  signature_preimage,
}
use aex_cpp_sdk.Signer.{
  Protobuf, amino_wrap, encode_order, encode_transaction, transaction_prefix, sign, build,
}
use aex_cpp_sdk.Signer.Encoding.{
  order_content, read_order, read_order-encode_order, read_wrapped, Reads, read_wrapped-amino_wrap,
}
use aex_cpp_sdk.Signer.Signing.{order_json-thrown, Signature, sign-Signature, build-empty}
use aex_cpp_sdk.Ecdsa.Curve.{secp256k1}
use aex_cpp_sdk.Ecdsa.Jacobian.Results.{Always}
use aex_cpp_sdk.Tests.Points.{generator, curve-IsField, curve-IsOrder, curve-IsTable}

-- A size in groups of seven bits, the lowest first, in at most so many bytes.
write_groups : ℕ → ℕ → List ℕ
write_groups zero n = n ∷ []
write_groups (suc left) n =
    if ltb n 128 then n ∷ [] else (n % 128 + 128) ∷ write_groups left (n / 128)

read_groups : ℕ → List ℕ → Option (ℕ × List ℕ)
read_groups left [] = none
read_groups zero (b ∷ bs) = some (b, bs)
read_groups (suc left) (b ∷ bs) = if ltb b 128 then some (b, bs) else elim (read_groups left bs) [
  | none ↦ none
  | some (n, rest) ↦ some (b - 128 + 128 * n, rest)
]

read_groups-write_groups :
    (left n : ℕ) (rest : List ℕ) → read_groups left (write_groups left n ++ rest) ≡ some (n, rest)
unfolding write_groups read_groups
read_groups-write_groups zero n rest = refl
read_groups-write_groups (suc left) n rest = elim (Bool-cases (ltb n 128)) [
  | inl e ↦ rw e (rw e refl)
  | inr e ↦
      let high : ltb (n % 128 + 128) 128 ≡ false = ground arith in
      let sum : n % 128 + 128 - 128 + 128 * (n / 128) ≡ n = omega arith in
      rw e (rw high (rw (read_groups-write_groups left (n / 128) rest) (rw sum refl)))
]

-- Messages are written without their contents, other than the fields that the tests read.
abbrev protobuf : Protobuf
protobuf = record {
  serialize_order = λ order. 1 ∷ 2 ∷ 3 ∷ [];
  serialize_transaction = λ t. t.memo;
  serialize_signature = λ s. s.signature;
  write_varint64 = write_groups 9;
}

concat : List (List ℕ) → List ℕ
concat [] = []
concat (text ∷ texts) = text ++ concat texts

-- JSON values as their texts without punctuation.
abbrev json : JsonLibrary (List ℕ)
json = record {
  null = [];
  number = to_string;
  string = λ text. text;
  array = concat;
  set = λ j key value. j ++ (key ++ value);
  push_back = λ j text. j ++ text;
  dump = λ j. some j;
}

protobuf-Reads : Reads protobuf (read_groups 9)
protobuf-Reads = record { reads = λ n rest h. read_groups-write_groups 9 n rest }

abbrev pub coin : Token
coin = record { denom = codes "BNB"; amount = pos 1001000000 }

abbrev pub payment : Send
payment = record {
  inputs = record { address = replicate 20 7; coins = coin ∷ [] } ∷ [];
  outputs = record { address = replicate 20 9; coins = coin ∷ coin ∷ [] } ∷ [];
}

abbrev cancellation : CancelOrder
cancellation = record {
  sender = replicate 20 7;
  symbol = codes "BTC-5C4_BNB";
  refid = codes "B6-11";
}

abbrev signer : Signer
signer = record {
  chain_id = codes "chain-bnb";
  account_number = pos 19;
  sequence = negsuc 0;
  source = pos 1;
  memo = codes "test";
  private_key = replicate 32 5;
  order = cancel_order cancellation;
}

-- The sender of a cancellation stands in the text as its bytes.
preimage_of_cancellation :
    signature_preimage json signer
    ≡ returned (
        codes "account_number19chain_idchain-bnbdatamemotestmsgsrefidB6-11sender"
        ++ (replicate 20 7 ++ codes "symbolBTC-5C4_BNBsequence-1source1"))
unfolding signature_preimage order_json dumped preimage_json to_string decimal_text decimal concat
preimage_of_cancellation = refl

-- A transaction is its size, its prefix and its serialization.
transaction_bytes :
    encode_transaction protobuf signer []
    ≡ 8 ∷ 0xF0 ∷ 0x62 ∷ 0x5D ∷ 0xEE ∷ 0x74 ∷ 0x65 ∷ 0x73 ∷ 0x74 ∷ []
unfolding encode_transaction amino_wrap write_groups
transaction_bytes = refl

read_order-encode_order_example :
    read_order (encode_order protobuf (send_order payment))
    ≡ order_content protobuf (send_order payment)
read_order-encode_order_example = read_order-encode_order protobuf (send_order payment)

read_wrapped-amino_wrap_example :
    read_wrapped
      (read_groups 9)
      (amino_wrap protobuf (replicate 200 1) transaction_prefix true ++ (7 ∷ []))
    ≡ some (transaction_prefix ++ replicate 200 1, 7 ∷ [])
read_wrapped-amino_wrap_example =
    read_wrapped-amino_wrap protobuf (read_groups 9) (replicate 200 1) transaction_prefix (7 ∷ [])
      protobuf-Reads (omega arith)

order_json-thrown_example :
    (order_json json (other (codes "Binance.Transaction")) ≡ thrown invalid_argument)
    ↔ (encode_order protobuf (other (codes "Binance.Transaction")) ≡ [])
order_json-thrown_example = order_json-thrown json protobuf (other (codes "Binance.Transaction"))

sign-Signature_example : Always (Signature (λ i j. generator)) (sign json (λ i j. generator) signer)
unfolding secp256k1
sign-Signature_example =
    sign-Signature (λ i j. generator) signer curve-IsField curve-IsOrder curve-IsTable (omega arith)
      json

build-empty_example :
    (build protobuf (λ i j. generator) json signer (1 ∷ []) ≡ some (returned [], []))
    ↔ (sign json (λ i j. generator) signer (1 ∷ []) ≡ some (returned [], []))
build-empty_example = build-empty protobuf (λ i j. generator) signer json (1 ∷ []) []
