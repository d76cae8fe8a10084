-- ===== src/Serialization.antt =====
-- src/Serialization.cpp: the JSON text of an order that is signed.
pub mod Arrays
pub mod Numbers
pub mod Objects
pub mod Reading
use aex_cpp_sdk.Base.{ℤ, pos, negsuc}
use aex_cpp_sdk.Base.{ℕ, zero, suc, ◌+◌, ◌/◌, ◌%◌, List, [], ◌∷◌, ◌==◌, if◌then◌else◌}
use aex_cpp_sdk.Base.{Option, none, some}
use aex_cpp_sdk.Bech32.Charset.{codes}
use aex_cpp_sdk.Address.{Address, encode, binance_hrp}
use aex_cpp_sdk.Messages.{
  NewOrder, CancelOrder, TokenFreeze, TokenUnfreeze, Token, Input, Output, Send, Message, new_order,
  cancel_order, send_order, token_freeze, token_unfreeze, other, Signer, Exception,
  invalid_argument, dump_error, Outcome, returned, thrown,
}

-- The JSON library, on the type of its values: `set` is the assignment to `j[key]`. No result of `dump`
-- is the exception that it throws for a text that is not UTF-8.
pub record JsonLibrary (J : Type 0) : Type 0 where
  pub null : J
  pub number : ℤ → J
  pub string : List ℕ → J
  pub array : List J → J
  pub set : J → List ℕ → J → J
  pub push_back : J → J → J
  pub dump : J → Option (List ℕ)

-- The decimal digits of a number, before some text.
unfoldable pub decimal : ℕ → ℕ → List ℕ → List ℕ
decimal zero n text = text
decimal (suc left) n text =
    let rest = decimal left (n / 10) ((0x30 + n % 10) ∷ text) in if n == 0 then text else rest

unfoldable pub decimal_text : ℕ → List ℕ
decimal_text n = if n == 0 then codes "0" else decimal 20 n []

-- `std::to_string` of an `int64_t`, which has at most 20 digits.
unfoldable pub to_string : ℤ → List ℕ
to_string (pos n) = decimal_text n
to_string (negsuc n) = 0x2d ∷ decimal_text (suc n)

-- `addressString`.
unfoldable pub address_string : List ℕ → List ℕ
address_string bytes = encode (record { hrp = binance_hrp; key_hash = bytes })

module _ {J : Type 0} (json : JsonLibrary J) where
  -- A round of the loop of `tokensJSON`.
  unfoldable pub token_json : Token → J
  token_json token =
      let sj = json.set json.null (codes "denom") (json.string token.denom) in
      json.set sj (codes "amount") (json.number token.amount)

  unfoldable pub tokens_loop : J → List Token → J
  tokens_loop j [] = j
  tokens_loop j (token ∷ tokens) = tokens_loop (json.push_back j (token_json token)) tokens

  -- `tokensJSON`.
  unfoldable pub tokens_json : List Token → J
  tokens_json tokens = tokens_loop (json.array []) tokens

  -- A round of the loop of `inputsJSON`.
  unfoldable pub input_json : Input → J
  input_json input =
      let sj = json.set json.null (codes "address") (json.string (address_string input.address)) in
      json.set sj (codes "coins") (tokens_json input.coins)

  unfoldable pub inputs_loop : J → List Input → J
  inputs_loop j [] = j
  inputs_loop j (input ∷ inputs) = inputs_loop (json.push_back j (input_json input)) inputs

  -- `inputsJSON`.
  unfoldable pub inputs_json : Send → J
  inputs_json order = inputs_loop (json.array []) order.inputs

  -- A round of the loop of `outputsJSON`.
  unfoldable pub output_json : Output → J
  output_json output =
      let sj = json.set json.null (codes "address") (json.string (address_string output.address)) in
      json.set sj (codes "coins") (tokens_json output.coins)

  unfoldable pub outputs_loop : J → List Output → J
  outputs_loop j [] = j
  outputs_loop j (output ∷ outputs) = outputs_loop (json.push_back j (output_json output)) outputs

  -- `outputsJSON`.
  unfoldable pub outputs_json : Send → J
  outputs_json order = outputs_loop (json.array []) order.outputs

  -- `orderJSON`.
  unfoldable pub order_json : Message → Outcome J
  order_json (new_order order) =
      let j = json.set json.null (codes "id") (json.string order.id) in
      let j = json.set j (codes "ordertype") (json.number (pos 2)) in
      let j = json.set j (codes "price") (json.number order.price) in
      let j = json.set j (codes "quantity") (json.number order.quantity) in
      let j = json.set j (codes "sender") (json.string (address_string order.sender)) in
      let j = json.set j (codes "side") (json.number order.side) in
      let j = json.set j (codes "symbol") (json.string order.symbol) in
      returned (json.set j (codes "timeinforce") (json.number order.timeinforce))
  order_json (cancel_order order) =
      let j = json.set json.null (codes "refid") (json.string order.refid) in
      let j = json.set j (codes "sender") (json.string order.sender) in
      returned (json.set j (codes "symbol") (json.string order.symbol))
  order_json (send_order order) =
      let j = json.set json.null (codes "inputs") (inputs_json order) in
      returned (json.set j (codes "outputs") (outputs_json order))
  order_json (token_freeze order) =
      let j = json.set json.null (codes "from") (json.string (address_string order.from)) in
      let j = json.set j (codes "symbol") (json.string order.symbol) in
      returned (json.set j (codes "amount") (json.number order.amount))
  order_json (token_unfreeze order) =
      let j = json.set json.null (codes "from") (json.string (address_string order.from)) in
      let j = json.set j (codes "symbol") (json.string order.symbol) in
      returned (json.set j (codes "amount") (json.number order.amount))
  order_json (other name) = thrown invalid_argument

  -- What `j.dump()` returns or throws.
  unfoldable pub dumped : J → Outcome (List ℕ)
  dumped j = elim (json.dump j) [ none ↦ thrown dump_error | some text ↦ returned text ]

  -- The JSON of `signaturePreimage` around the JSON of the order.
  unfoldable pub preimage_json : Signer → J → J
  preimage_json signer msg =
      let account_number = json.string (to_string signer.account_number) in
      let j = json.set json.null (codes "account_number") account_number in
      let j = json.set j (codes "chain_id") (json.string signer.chain_id) in
      let j = json.set j (codes "data") json.null in
      let j = json.set j (codes "memo") (json.string signer.memo) in
      let j = json.set j (codes "msgs") (json.array (msg ∷ [])) in
      let j = json.set j (codes "sequence") (json.string (to_string signer.sequence)) in
      json.set j (codes "source") (json.string (to_string signer.source))

  -- `signaturePreimage`.
  unfoldable pub signature_preimage : Signer → Outcome (List ℕ)
  signature_preimage signer = elim (order_json signer.order) [
    | returned msg ↦ dumped (preimage_json signer msg)
    | thrown e ↦ thrown e
  ]
