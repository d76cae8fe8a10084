-- ===== src/Signer/Encoding.antt =====
-- The bytes that `Signer` makes of an order tell its type, its serialization and their size.
use aex_cpp_sdk.Base.{ℕ, ◌+◌, ◌%◌, ◌^◌, ◌<◌, ◌≡◌, refl, arith}
use aex_cpp_sdk.Base.{List, ◌++◌, true, if◌then◌else◌}
use aex_cpp_sdk.Base.{
  Option, none, some, length, take, drop, bytes_eq, append_assoc, length-append, take-length-append,
  drop-length-append,
}
use aex_cpp_sdk.Messages.{
  Message, new_order, cancel_order, send_order, token_freeze, token_unfreeze, other,
}
use aex_cpp_sdk.Signer.{
  Protobuf, amino_wrap, encode_order, trade_order_prefix, cancel_trade_order_prefix,
  send_order_prefix, token_freeze_order_prefix, token_unfreeze_order_prefix,
}

-- The types of orders.
pub data OrderType : Type 0 where
  trade : OrderType
  cancel : OrderType
  transfer : OrderType
  freeze : OrderType
  unfreeze : OrderType

-- The type of a message and its serialization, for an order.
unfoldable pub order_content : Protobuf → Message → Option (OrderType × List ℕ)
order_content protobuf (new_order order) = some (trade, protobuf.serialize_order (new_order order))
order_content protobuf (cancel_order order) =
    some (cancel, protobuf.serialize_order (cancel_order order))
order_content protobuf (send_order order) =
    some (transfer, protobuf.serialize_order (send_order order))
order_content protobuf (token_freeze order) =
    some (freeze, protobuf.serialize_order (token_freeze order))
order_content protobuf (token_unfreeze order) =
    some (unfreeze, protobuf.serialize_order (token_unfreeze order))
order_content protobuf (other name) = none

-- A reader: the type that the first four bytes name, and the bytes after them.
unfoldable pub read_order : List ℕ → Option (OrderType × List ℕ)
read_order bytes =
    let first = take 4 bytes in
    let raw = drop 4 bytes in
    if bytes_eq first trade_order_prefix
    then some (trade, raw)
    else if bytes_eq first cancel_trade_order_prefix
    then some (cancel, raw)
    else if bytes_eq first send_order_prefix
    then some (transfer, raw)
    else if bytes_eq first token_freeze_order_prefix
    then some (freeze, raw)
    else if bytes_eq first token_unfreeze_order_prefix
    then some (unfreeze, raw)
    else none

-- A reader that takes the type of an order from the first four bytes reads from the bytes of
-- `Signer::encodeOrder` the type and the serialization of the order, and nothing for a message
-- that is not an order.
pub read_order-encode_order :
    (protobuf : Protobuf) (order : Message)
    → read_order (encode_order protobuf order) ≡ order_content protobuf order
unfolding read_order encode_order order_content amino_wrap bytes_eq
read_order-encode_order protobuf (new_order order) = refl
read_order-encode_order protobuf (cancel_order order) = refl
read_order-encode_order protobuf (send_order order) = refl
read_order-encode_order protobuf (token_freeze order) = refl
read_order-encode_order protobuf (token_unfreeze order) = refl
read_order-encode_order protobuf (other name) = refl

-- A reader of one text behind its size, given a reader of sizes: the text, and the bytes after it.
unfoldable pub read_wrapped : (List ℕ → Option (ℕ × List ℕ)) → List ℕ → Option (List ℕ × List ℕ)
read_wrapped read_varint64 bytes = elim (read_varint64 bytes) [
  | none ↦ none
  | some (n, rest) ↦ some (take n rest, drop n rest)
]

-- The reader of sizes reads what the library writes.
pub record Reads (protobuf : Protobuf) (read_varint64 : List ℕ → Option (ℕ × List ℕ)) : Type 0 where
  pub reads :
      (n : ℕ) (rest : List ℕ)
      → n < 2 ^ 64
      → read_varint64 (protobuf.write_varint64 n ++ rest) ≡ some (n, rest)

-- A reader of a size and as many bytes reads from the bytes of `Signer::aminoWrap` with a size,
-- and any bytes after them, the prefix with the text, and leaves the bytes after them; for a
-- reader of sizes that reads what the library writes for sizes below `2^64`, and a prefix and a
-- text that are together shorter than `2^64`.
pub read_wrapped-amino_wrap :
    (protobuf : Protobuf) (read_varint64 : List ℕ → Option (ℕ × List ℕ))
    (raw type_prefix rest : List ℕ)
    → Reads protobuf read_varint64
    → length raw + length type_prefix < 2 ^ 64
    → read_wrapped read_varint64 (amino_wrap protobuf raw type_prefix true ++ rest)
      ≡ some (type_prefix ++ raw, rest)
unfolding read_wrapped amino_wrap
read_wrapped-amino_wrap protobuf read_varint64 raw type_prefix rest h small =
    let n = length raw + length type_prefix in
    let contents = type_prefix ++ raw in
    let size : length contents ≡ n = omega (arith, length-append type_prefix raw) in
    let whole : n % 2 ^ 64 ≡ n = omega (arith, small) in
    let read : read_varint64 ((protobuf.write_varint64 (n % 2 ^ 64) ++ contents) ++ rest)
        ≡ some (length contents, contents ++ rest) =
      rw whole (
        rw (append_assoc (protobuf.write_varint64 n) contents rest)
          (rw size (h.reads n (contents ++ rest) small))) in
    rw (read_wrapped, read)
      (rw (take-length-append contents rest) (rw (drop-length-append contents rest) refl))
