-- ===== src/Messages.antt =====
-- src/dex.proto, the `Signer` of src/Signer.h, and the results of functions that may throw.
use aex_cpp_sdk.Base.{ℕ, ℤ, pos, List, []}
use aex_cpp_sdk.Bech32.Charset.{codes}

pub record NewOrder : Type 0 where
  pub sender : List ℕ
  pub id : List ℕ
  pub symbol : List ℕ
  pub ordertype : ℤ
  pub side : ℤ
  pub quantity : ℤ
  pub price : ℤ
  pub timeinforce : ℤ

pub record CancelOrder : Type 0 where
  pub sender : List ℕ
  pub symbol : List ℕ
  pub refid : List ℕ

pub record TokenFreeze : Type 0 where
  pub from : List ℕ
  pub symbol : List ℕ
  pub amount : ℤ

pub record TokenUnfreeze : Type 0 where
  pub from : List ℕ
  pub symbol : List ℕ
  pub amount : ℤ

-- `Send` and the messages nested in it.
pub record Token : Type 0 where
  pub denom : List ℕ
  pub amount : ℤ

pub record Input : Type 0 where
  pub address : List ℕ
  pub coins : List Token

pub record Output : Type 0 where
  pub address : List ℕ
  pub coins : List Token

pub record Send : Type 0 where
  pub inputs : List Input
  pub outputs : List Output

pub record Transaction : Type 0 where
  pub msgs : List (List ℕ)
  pub signatures : List (List ℕ)
  pub memo : List ℕ
  pub source : ℤ
  pub data_bytes : List ℕ

pub record Signature : Type 0 where
  pub pub_key : List ℕ
  pub signature : List ℕ
  pub account_number : ℤ
  pub sequence : ℤ

-- A message behind the reference `order`, by the type that `GetTypeName` names. A message of a type that
-- is not an order stands with its name.
pub data Message : Type 0 where
  new_order : NewOrder → Message
  cancel_order : CancelOrder → Message
  send_order : Send → Message
  token_freeze : TokenFreeze → Message
  token_unfreeze : TokenUnfreeze → Message
  other : List ℕ → Message

pub record Signer : Type 0 where
  pub chain_id : List ℕ
  pub account_number : ℤ
  pub sequence : ℤ
  pub source : ℤ
  pub memo : List ℕ
  pub private_key : List ℕ
  pub order : Message

-- The constructor of `Signer`.
unfoldable pub new_signer : Message → Signer
new_signer order = record {
  chain_id = codes "chain-bnb";
  account_number = pos 0;
  sequence = pos 0;
  source = pos 0;
  memo = [];
  private_key = [];
  order = order;
}

-- The exceptions: `std::invalid_argument` of `orderJSON`, and what `dump` of the JSON library throws.
pub data Exception : Type 0 where
  invalid_argument : Exception
  dump_error : Exception

pub data Outcome (A : Type 0) : Type 0 where
  returned : A → Outcome A
  thrown : Exception → Outcome A
