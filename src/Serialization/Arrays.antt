-- ===== src/Serialization/Arrays.antt =====
-- The arrays that src/Serialization.cpp fills element by element.
use aex_cpp_sdk.Base.{◌≡◌, refl, ◌∙◌, ap, List, [], ◌∷◌, ◌++◌, map, append_assoc, append-nil}
use aex_cpp_sdk.Messages.{Token, Send}
use aex_cpp_sdk.Serialization.{
  JsonLibrary, token_json, tokens_loop, tokens_json, input_json, inputs_loop, inputs_json,
  output_json, outputs_loop, outputs_json,
}

-- `push_back` on an array of the library appends an element.
pub record Appends {J : Type 0} (json : JsonLibrary J) : Type 0 where
  pub appends :
      (xs : List J) (x : J) → json.push_back (json.array xs) x ≡ json.array (xs ++ (x ∷ []))

module _ {J : Type 0} (json : JsonLibrary J) (h : Appends json) where
  -- A loop that pushes the image of each element.
  pushed :
      {A : Type 0} (f : A → J) (loop : J → List A → J)
      → ((j : J) → loop j [] ≡ j)
      → ((j : J) (a : A) (bs : List A) → loop j (a ∷ bs) ≡ loop (json.push_back j (f a)) bs)
      → (xs : List J) (bs : List A) → loop (json.array xs) bs ≡ json.array (xs ++ map f bs)
  pushed f loop stop step xs [] = stop (json.array xs) ∙ ap json.array (rw (append-nil xs))
  pushed f loop stop step xs (a ∷ bs) =
      step (json.array xs) a bs
      ∙ ap (λ (j : J). loop j bs) (h.appends xs (f a))
      ∙ pushed f loop stop step (xs ++ (f a ∷ [])) bs
      ∙ ap json.array (append_assoc xs (f a ∷ []) (map f bs))

  -- `tokensJSON`, `inputsJSON` and `outputsJSON` are the arrays of the JSON values of the elements,
  -- in their order, for a JSON library whose `push_back` on an array appends an element.
  pub json_arrays :
      (tokens : List Token) (order : Send)
      → (tokens_json json tokens ≡ json.array (map (token_json json) tokens))
        × (inputs_json json order ≡ json.array (map (input_json json) order.inputs))
        × (outputs_json json order ≡ json.array (map (output_json json) order.outputs))
  unfolding tokens_json inputs_json outputs_json tokens_loop inputs_loop outputs_loop
  json_arrays tokens order = (
    pushed (token_json json) (tokens_loop json) (λ j. refl) (λ j a bs. refl) [] tokens,
    pushed (input_json json) (inputs_loop json) (λ j. refl) (λ j a bs. refl) [] order.inputs,
    pushed (output_json json) (outputs_loop json) (λ j. refl) (λ j a bs. refl) [] order.outputs,
  )
