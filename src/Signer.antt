-- ===== src/Signer.antt =====
-- src/Signer.cpp: the signature of an order and the transaction that carries it.
pub mod Encoding
pub mod Signing
use aex_cpp_sdk.Base.{ℕ, ◌+◌, ◌%◌, ◌^◌, List, [], ◌∷◌, ◌++◌, Bool, true, false, if◌then◌else◌}
use aex_cpp_sdk.Base.{none, some, length}
use aex_cpp_sdk.Address.{is_empty}
use aex_cpp_sdk.Sha2.Digest.{sha256_raw}
use aex_cpp_sdk.Ecdsa.Curve.{Point, secp256k1}
use aex_cpp_sdk.Ecdsa.Jacobian.{Random, ◌>>=◌, pure}
use aex_cpp_sdk.Ecdsa.Keys.{ecdsa_get_public_key33}
use aex_cpp_sdk.Ecdsa.Signature.{ecdsa_sign_digest}
use aex_cpp_sdk.Messages.{
  Transaction, Signature, Message, new_order, cancel_order, send_order, token_freeze,
  token_unfreeze, other, Signer, Outcome, returned, thrown,
}
use aex_cpp_sdk.Serialization.{JsonLibrary, signature_preimage}

-- The protobuf library: `SerializeAsString` of the generated classes, and what `WriteVarint64` writes.
pub record Protobuf : Type 0 where
  pub serialize_order : Message → List ℕ
  pub serialize_transaction : Transaction → List ℕ
  pub serialize_signature : Signature → List ℕ
  pub write_varint64 : ℕ → List ℕ

-- The prefixes of messages.
abbrev pub send_order_prefix : List ℕ
send_order_prefix = 0x2A ∷ 0x2C ∷ 0x87 ∷ 0xFA ∷ []

abbrev pub trade_order_prefix : List ℕ
trade_order_prefix = 0xCE ∷ 0x6D ∷ 0xC0 ∷ 0x43 ∷ []

abbrev pub cancel_trade_order_prefix : List ℕ
cancel_trade_order_prefix = 0x16 ∷ 0x6E ∷ 0x68 ∷ 0x1B ∷ []

abbrev pub token_freeze_order_prefix : List ℕ
token_freeze_order_prefix = 0xE7 ∷ 0x74 ∷ 0xB3 ∷ 0x2D ∷ []

abbrev pub token_unfreeze_order_prefix : List ℕ
token_unfreeze_order_prefix = 0x65 ∷ 0x15 ∷ 0xFF ∷ 0x0D ∷ []

abbrev pub pub_key_prefix : List ℕ
pub_key_prefix = 0xEB ∷ 0x5A ∷ 0xE9 ∷ 0x87 ∷ []

abbrev pub transaction_prefix : List ℕ
transaction_prefix = 0xF0 ∷ 0x62 ∷ 0x5D ∷ 0xEE ∷ []

-- The object of `Signer::encodeSignature`, for the bytes of the public key.
unfoldable pub signature_object : Signer → List ℕ → List ℕ → Signature
signature_object signer signature public_key = record {
  pub_key = pub_key_prefix ++ (length public_key % 2 ^ 8 ∷ public_key);
  signature = signature;
  account_number = signer.account_number;
  sequence = signer.sequence;
}

module _ (protobuf : Protobuf) where
  -- `Signer::aminoWrap`. The size that it reserves has no effect.
  unfoldable pub amino_wrap : List ℕ → List ℕ → Bool → List ℕ
  amino_wrap raw type_prefix prefix_with_size =
      let contents_size = (length raw + length type_prefix) % 2 ^ 64 in
      let size = if prefix_with_size then protobuf.write_varint64 contents_size else [] in
      size ++ (type_prefix ++ raw)

  -- `Signer::encodeOrder`.
  unfoldable pub encode_order : Message → List ℕ
  encode_order (new_order order) =
      amino_wrap (protobuf.serialize_order (new_order order)) trade_order_prefix false
  encode_order (cancel_order order) =
      amino_wrap (protobuf.serialize_order (cancel_order order)) cancel_trade_order_prefix false
  encode_order (send_order order) =
      amino_wrap (protobuf.serialize_order (send_order order)) send_order_prefix false
  encode_order (token_freeze order) =
      amino_wrap (protobuf.serialize_order (token_freeze order)) token_freeze_order_prefix false
  encode_order (token_unfreeze order) =
      amino_wrap (protobuf.serialize_order (token_unfreeze order)) token_unfreeze_order_prefix false
  encode_order (other name) = []

  -- `Signer::encodeTransaction`.
  unfoldable pub encode_transaction : Signer → List ℕ → List ℕ
  encode_transaction signer signature =
      let msg = encode_order signer.order in
      let transaction : Transaction = record {
        msgs = msg ∷ [];
        signatures = signature ∷ [];
        memo = signer.memo;
        source = signer.source;
        data_bytes = [];
      } in
      amino_wrap (protobuf.serialize_transaction transaction) transaction_prefix true

-- `Signer::sign` after the text that is signed.
unfoldable pub sign_text : (ℕ → ℕ → Point) → Signer → List ℕ → Random (List ℕ)
sign_text table signer pre_image =
    let hash = sha256_raw pre_image in
    ecdsa_sign_digest (secp256k1 table) none signer.private_key hash >>= λ result. elim result [
      | none ↦ pure []
      | some (sig, by) ↦ pure sig
    ]

-- `Signer::sign`: an empty signature, or one of 64 bytes.
unfoldable pub sign :
    {J : Type 0} → JsonLibrary J → (ℕ → ℕ → Point) → Signer → Random (Outcome (List ℕ))
sign json table signer = elim (signature_preimage json signer) [
  | returned pre_image ↦ sign_text table signer pre_image >>= λ signature. pure (returned signature)
  | thrown e ↦ pure (thrown e)
]

module _ (protobuf : Protobuf) (table : ℕ → ℕ → Point) where
  -- `Signer::encodeSignature`.
  unfoldable pub encode_signature : Signer → List ℕ → Random (List ℕ)
  encode_signature signer signature =
      ecdsa_get_public_key33 (secp256k1 table) signer.private_key >>= λ public_key.
      let object = signature_object signer signature public_key in
      pure (amino_wrap protobuf (protobuf.serialize_signature object) [] false)

  -- `Signer::build` after `sign`.
  unfoldable pub build_from : Signer → List ℕ → Random (List ℕ)
  build_from signer signature =
      let rest = encode_signature signer signature >>= λ encoded.
      pure (encode_transaction protobuf signer encoded) in
      if is_empty signature then pure [] else rest

  -- `Signer::build`.
  unfoldable pub build : {J : Type 0} → JsonLibrary J → Signer → Random (Outcome (List ℕ))
  build json signer = sign json table signer >>= λ result. elim result [
    | returned signature ↦
        build_from signer signature >>= λ transaction. pure (returned transaction)
    | thrown e ↦ pure (thrown e)
  ]
