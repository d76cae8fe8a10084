-- ===== src/Serialization/Reading/Sends.antt =====
-- The JSON of a `Send` and of what it holds, read back.
use aex_cpp_sdk.Base.{ℕ, ◌≡◌, refl, ap, List, [], ◌∷◌, map, All, bytes_eq, some}
use aex_cpp_sdk.Bech32.Charset.{codes}
use aex_cpp_sdk.Messages.{Token, Input, Output, Send, send_order}
use aex_cpp_sdk.Serialization.{
  JsonLibrary, address_string, token_json, tokens_json, input_json, inputs_json, output_json,
  outputs_json, order_json,
}
use aex_cpp_sdk.Serialization.Arrays.{Appends, json_arrays}
use aex_cpp_sdk.Serialization.Objects.{
  JsonReader, last_value, all_some, is_some, IsKeyHash, assign, Readable, has-assign,
  string_at-assign, address_at-assign, number_at-assign, array_at-assign, all_some-map,
}
use aex_cpp_sdk.Serialization.Reading.{
  IsAddressed, read_token, read_input, read_output, read_send, read_message, read_outcome,
}

module _ {J : Type 0} (json : JsonLibrary J) (reader : JsonReader J) (a : Appends json)
    (h : Readable json reader) where
  token-read : (token : Token) → read_token json reader (token_json json token) ≡ some token
  unfolding read_token token_json assign last_value bytes_eq
  token-read token =
      let fields : List (List ℕ × J) =
        (codes "denom", json.string token.denom)
        ∷ (codes "amount", json.number token.amount)
        ∷ [] in
      rw (string_at-assign json reader h fields (codes "denom") token.denom refl)
        (rw (number_at-assign json reader h fields (codes "amount") token.amount refl) refl)

  tokens-read :
      (tokens : List Token)
      → all_some (read_token json reader) (map (token_json json) tokens) ≡ some tokens
  tokens-read tokens =
      all_some-map (λ (token : Token). Unit {0}) (token_json json) (read_token json reader) tokens
        (λ token u. token-read token) (every tokens)
    where
      every : (tokens : List Token) → All {0, 0} (λ (token : Token). Unit {0}) tokens
      every [] = tt
      every (token ∷ tokens) = (tt, every tokens)

  -- The arrays under a key, with what the other fields do not read.
  tokens_json-array :
      (tokens : List Token) → tokens_json json tokens ≡ json.array (map (token_json json) tokens)
  tokens_json-array tokens = (json_arrays json a tokens (record { inputs = []; outputs = [] })).0

  input-read :
      (input : Input)
      → IsKeyHash input.address
      → read_input json reader (input_json json input) ≡ some input
  unfolding read_input input_json assign last_value bytes_eq
  input-read input k =
      let fields : List (List ℕ × J) =
        (codes "address", json.string (address_string input.address))
        ∷ (codes "coins", tokens_json json input.coins)
        ∷ [] in
      rw (address_at-assign json reader h fields (codes "address") input.address k refl) (
        rw
          (array_at-assign json reader h fields (codes "coins") (read_token json reader)
            (map (token_json json) input.coins) input.coins (tokens-read input.coins)
            (ap some (tokens_json-array input.coins)))
          refl)

  output-read :
      (output : Output)
      → IsKeyHash output.address
      → read_output json reader (output_json json output) ≡ some output
  unfolding read_output output_json assign last_value bytes_eq
  output-read output k =
      let fields : List (List ℕ × J) =
        (codes "address", json.string (address_string output.address))
        ∷ (codes "coins", tokens_json json output.coins)
        ∷ [] in
      rw (address_at-assign json reader h fields (codes "address") output.address k refl) (
        rw
          (array_at-assign json reader h fields (codes "coins") (read_token json reader)
            (map (token_json json) output.coins) output.coins (tokens-read output.coins)
            (ap some (tokens_json-array output.coins)))
          refl)

  pub send-read :
      (order : Send)
      → IsAddressed (send_order order)
      → read_outcome json reader (order_json json (send_order order)) ≡ some (send_order order)
  unfolding read_outcome read_message read_send order_json IsAddressed assign last_value bytes_eq
      is_some
  send-read order (is, os) =
      let arrays = json_arrays json a [] order in
      let fields : List (List ℕ × J) =
        (codes "inputs", inputs_json json order)
        ∷ (codes "outputs", outputs_json json order)
        ∷ [] in
      let named = has-assign json reader h fields in
      rw (named (codes "id")) (
        rw (named (codes "refid")) (
          rw (named (codes "inputs")) (
            rw
              (array_at-assign json reader h fields (codes "inputs") (read_input json reader)
                (map (input_json json) order.inputs) order.inputs
                (all_some-map (λ (input : Input). IsKeyHash input.address) (input_json json)
                  (read_input json reader) order.inputs input-read is)
                (ap some arrays.1))
              (rw
                (array_at-assign json reader h fields (codes "outputs") (read_output json reader)
                  (map (output_json json) order.outputs) order.outputs
                  (all_some-map (λ (output : Output). IsKeyHash output.address) (output_json json)
                    (read_output json reader) order.outputs output-read os)
                  (ap some arrays.2))
                refl))))
