-- ===== src/Serialization/Reading.antt =====
-- A reader of the JSON of an order.
pub mod Sends
pub mod Orders
use aex_cpp_sdk.Base.{
  ℕ, ℤ, pos, ◌≡◌, refl, sym, ap, ◌∙◌, List, [], ◌∷◌, map, All, Bool, true, false, ◌==◌, ◌&&◌,
  bytes_eq, if◌then◌else◌, Option, none, some,
}
use aex_cpp_sdk.Bech32.Charset.{codes}
use aex_cpp_sdk.Messages.{
  NewOrder, CancelOrder, TokenFreeze, TokenUnfreeze, Token, Input, Output, Send, Message, new_order,
  cancel_order, send_order, token_freeze, token_unfreeze, other, Exception, Outcome, returned,
  thrown,
}
use aex_cpp_sdk.Serialization.{
  JsonLibrary, address_string, token_json, tokens_json, input_json, inputs_json, output_json,
  outputs_json, order_json,
}
use aex_cpp_sdk.Serialization.Arrays.{Appends, json_arrays}
use aex_cpp_sdk.Serialization.Objects.{
  ◌>>=◌, JsonReader, last_value, all_some, is_some, IsKeyHash, assign, Readable, has, string_at,
  address_at, number_at, array_at, has-assign, string_at-assign, address_at-assign,
  number_at-assign, array_at-assign, all_some-map,
}

-- The addresses of an order are those of key hashes. The sender of a cancellation can be any bytes.
unfoldable pub IsAddressed : Message → Type 0
IsAddressed (new_order order) = IsKeyHash order.sender
IsAddressed (cancel_order order) = Unit
IsAddressed (send_order order) =
    All (λ (input : Input). IsKeyHash input.address) order.inputs
    × All (λ (output : Output). IsKeyHash output.address) order.outputs
IsAddressed (token_freeze order) = IsKeyHash order.from
IsAddressed (token_unfreeze order) = IsKeyHash order.from
IsAddressed (other name) = Unit

-- What the JSON keeps of a message: the type of an order is 2 whatever the message says, a release of
-- tokens looks like a freezing, and a message that is not an order has none.
unfoldable pub kept : Message → Option Message
kept (new_order order) = some (
    new_order (record {
      sender = order.sender;
      id = order.id;
      symbol = order.symbol;
      ordertype = pos 2;
      side = order.side;
      quantity = order.quantity;
      price = order.price;
      timeinforce = order.timeinforce;
    }))
kept (token_unfreeze order) =
    some (token_freeze (record { from = order.from; symbol = order.symbol; amount = order.amount }))
kept (other name) = none
kept order = some order

module _ {J : Type 0} (json : JsonLibrary J) (reader : JsonReader J) where
  unfoldable pub read_token : J → Option Token
  read_token j = do
    denom ← string_at json reader j (codes "denom")
    amount ← number_at json reader j (codes "amount")
    some (record { denom = denom; amount = amount })

  unfoldable pub read_input : J → Option Input
  read_input j = do
    address ← address_at json reader j (codes "address")
    coins ← array_at json reader read_token j (codes "coins")
    some (record { address = address; coins = coins })

  unfoldable pub read_output : J → Option Output
  read_output j = do
    address ← address_at json reader j (codes "address")
    coins ← array_at json reader read_token j (codes "coins")
    some (record { address = address; coins = coins })

  unfoldable pub read_new_order : J → Option Message
  read_new_order j = do
    sender ← address_at json reader j (codes "sender")
    id ← string_at json reader j (codes "id")
    symbol ← string_at json reader j (codes "symbol")
    ordertype ← number_at json reader j (codes "ordertype")
    side ← number_at json reader j (codes "side")
    quantity ← number_at json reader j (codes "quantity")
    price ← number_at json reader j (codes "price")
    timeinforce ← number_at json reader j (codes "timeinforce")
    some (
        new_order (record {
          sender = sender;
          id = id;
          symbol = symbol;
          ordertype = ordertype;
          side = side;
          quantity = quantity;
          price = price;
          timeinforce = timeinforce;
        }))

  unfoldable pub read_cancel_order : J → Option Message
  read_cancel_order j = do
    sender ← string_at json reader j (codes "sender")
    symbol ← string_at json reader j (codes "symbol")
    refid ← string_at json reader j (codes "refid")
    some (cancel_order (record { sender = sender; symbol = symbol; refid = refid }))

  unfoldable pub read_send : J → Option Message
  read_send j = do
    inputs ← array_at json reader read_input j (codes "inputs")
    outputs ← array_at json reader read_output j (codes "outputs")
    some (send_order (record { inputs = inputs; outputs = outputs }))

  unfoldable pub read_freeze : J → Option Message
  read_freeze j = do
    from ← address_at json reader j (codes "from")
    symbol ← string_at json reader j (codes "symbol")
    amount ← number_at json reader j (codes "amount")
    some (token_freeze (record { from = from; symbol = symbol; amount = amount }))

  -- A message, by the fields that are there.
  unfoldable pub read_message : J → Option Message
  read_message j =
      if has json reader j (codes "id")
      then read_new_order j
      else if has json reader j (codes "refid")
      then read_cancel_order j
      else if has json reader j (codes "inputs")
      then read_send j
      else read_freeze j

  unfoldable pub read_outcome : Outcome J → Option Message
  read_outcome (returned j) = read_message j
  read_outcome (thrown e) = none
