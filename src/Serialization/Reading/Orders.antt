-- ===== src/Serialization/Reading/Orders.antt =====
-- The JSON of the messages, read back.
use aex_cpp_sdk.Base.{ℕ, pos, ◌≡◌, refl, List, [], ◌∷◌, bytes_eq, some}
use aex_cpp_sdk.Bech32.Charset.{codes}
use aex_cpp_sdk.Messages.{
  NewOrder, CancelOrder, TokenFreeze, Message, new_order, cancel_order, send_order, token_freeze,
  token_unfreeze, other,
}
use aex_cpp_sdk.Serialization.{JsonLibrary, address_string, order_json}
use aex_cpp_sdk.Serialization.Arrays.{Appends}
use aex_cpp_sdk.Serialization.Objects.{
  JsonReader, last_value, is_some, IsKeyHash, assign, Readable, has-assign, string_at-assign,
  address_at-assign, number_at-assign,
}
use aex_cpp_sdk.Serialization.Reading.{
  IsAddressed, kept, read_new_order, read_cancel_order, read_freeze, read_message, read_outcome,
}
use aex_cpp_sdk.Serialization.Reading.Sends.{send-read}

module _ {J : Type 0} (json : JsonLibrary J) (reader : JsonReader J) (a : Appends json)
    (h : Readable json reader) where
  new_order-read :
      (order : NewOrder)
      → IsKeyHash order.sender
      → read_outcome json reader (order_json json (new_order order)) ≡ kept (new_order order)
  unfolding read_outcome read_message read_new_order order_json kept assign last_value bytes_eq
      is_some
  new_order-read order k =
      let fields : List (List ℕ × J) =
        (codes "id", json.string order.id)
        ∷ (codes "ordertype", json.number (pos 2))
        ∷ (codes "price", json.number order.price)
        ∷ (codes "quantity", json.number order.quantity)
        ∷ (codes "sender", json.string (address_string order.sender))
        ∷ (codes "side", json.number order.side)
        ∷ (codes "symbol", json.string order.symbol)
        ∷ (codes "timeinforce", json.number order.timeinforce)
        ∷ [] in
      let named = has-assign json reader h fields in
      let text = string_at-assign json reader h fields in
      let number = number_at-assign json reader h fields in
      rw (named (codes "id")) (
        rw (address_at-assign json reader h fields (codes "sender") order.sender k refl) (
          rw (text (codes "id") order.id refl) (
            rw (text (codes "symbol") order.symbol refl) (
              rw (number (codes "ordertype") (pos 2) refl) (
                rw (number (codes "side") order.side refl) (
                  rw (number (codes "quantity") order.quantity refl) (
                    rw (number (codes "price") order.price refl)
                      (rw (number (codes "timeinforce") order.timeinforce refl) refl))))))))

  cancel_order-read :
      (order : CancelOrder)
      → read_outcome json reader (order_json json (cancel_order order)) ≡ some (cancel_order order)
  unfolding read_outcome read_message read_cancel_order order_json assign last_value bytes_eq
      is_some
  cancel_order-read order =
      let fields : List (List ℕ × J) =
        (codes "refid", json.string order.refid)
        ∷ (codes "sender", json.string order.sender)
        ∷ (codes "symbol", json.string order.symbol)
        ∷ [] in
      let named = has-assign json reader h fields in
      let text = string_at-assign json reader h fields in
      rw (named (codes "id")) (
        rw (named (codes "refid")) (
          rw (text (codes "sender") order.sender refl) (
            rw (text (codes "symbol") order.symbol refl)
              (rw (text (codes "refid") order.refid refl) refl))))

  token_freeze-read :
      (order : TokenFreeze)
      → IsKeyHash order.from
      → read_outcome json reader (order_json json (token_freeze order)) ≡ some (token_freeze order)
  unfolding read_outcome read_message read_freeze order_json assign last_value bytes_eq is_some
  token_freeze-read order k =
      let fields : List (List ℕ × J) =
        (codes "from", json.string (address_string order.from))
        ∷ (codes "symbol", json.string order.symbol)
        ∷ (codes "amount", json.number order.amount)
        ∷ [] in
      let named = has-assign json reader h fields in
      rw (named (codes "id")) (
        rw (named (codes "refid")) (
          rw (named (codes "inputs")) (
            rw (address_at-assign json reader h fields (codes "from") order.from k refl) (
              rw (string_at-assign json reader h fields (codes "symbol") order.symbol refl) (
                rw (number_at-assign json reader h fields (codes "amount") order.amount refl)
                  refl)))))

  -- The JSON that `orderJSON` makes of an order reads back as the order, with every field in its
  -- place, the order of inputs, outputs and coins, and the key hashes of the addresses; except that
  -- the type of a new order is 2, and a release of tokens reads as a freezing of them. A message
  -- that is no order has no JSON. The addresses are those of key hashes of 2 to 40 bytes, other than
  -- the sender of a cancellation; the JSON library appends to an array by `push_back`, and reads the
  -- last value assigned to a key, the elements of an array, texts and numbers as they were written.
  pub read_outcome-order_json :
      (message : Message)
      → IsAddressed message
      → read_outcome json reader (order_json json message) ≡ kept message
  unfolding IsAddressed kept order_json read_outcome
  read_outcome-order_json (new_order order) k = new_order-read order k
  read_outcome-order_json (cancel_order order) k = cancel_order-read order
  read_outcome-order_json (send_order order) k = send-read json reader a h order k
  read_outcome-order_json (token_freeze order) k = token_freeze-read order k
  read_outcome-order_json (token_unfreeze order) k =
      token_freeze-read (record { from = order.from; symbol = order.symbol; amount = order.amount })
        k
  read_outcome-order_json (other name) k = refl
