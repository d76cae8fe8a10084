-- ===== src/Signer/Signing.antt =====
-- What `Signer::sign` and `Signer::build` give.
use aex_cpp_sdk.Base.{ℕ, ◌≡◌, ◌≢◌, ◌↔◌, refl, ◌∙◌, List, [], ◌∷◌, ◌++◌}
use aex_cpp_sdk.Base.{Option, none, some, All, IsByte, ◌⊎◌, inl, inr}
use aex_cpp_sdk.Ecdsa.Curve.{Point, secp256k1}
use aex_cpp_sdk.Ecdsa.Curve.Field.{IsField}
use aex_cpp_sdk.Ecdsa.Jacobian.{Random, ◌>>=◌, pure}
use aex_cpp_sdk.Ecdsa.Jacobian.Results.{Always, pure-Always, bind-Always, bind-some, some-bind}
use aex_cpp_sdk.Ecdsa.Scalar.Invariant.{IsTable}
use aex_cpp_sdk.Ecdsa.Deterministic.Bounds.{sha256_raw-IsByte}
use aex_cpp_sdk.Ecdsa.Signature.{Signed}
use aex_cpp_sdk.Ecdsa.Signature.Signing.{IsOrder, IsLow, Low, ecdsa_sign_digest-Low}
use aex_cpp_sdk.Sha2.Digest.{sha256_raw}
use aex_cpp_sdk.Messages.{
  Message, new_order, cancel_order, send_order, token_freeze, token_unfreeze, other, Signer,
  invalid_argument, Outcome, returned, thrown,
}
use aex_cpp_sdk.Serialization.{JsonLibrary, order_json, signature_preimage}
use aex_cpp_sdk.Signer.{
  Protobuf, amino_wrap, encode_order, encode_transaction, encode_signature, sign_text, sign,
  build_from, build,
}

-- `orderJSON` throws an invalid argument for exactly the messages that `Signer::encodeOrder` makes
-- nothing of.
pub order_json-thrown :
    {J : Type 0} (json : JsonLibrary J) (protobuf : Protobuf) (order : Message)
    → (order_json json order ≡ thrown invalid_argument) ↔ (encode_order protobuf order ≡ [])
unfolding order_json encode_order amino_wrap
order_json-thrown json protobuf (new_order order) = ((λ h. cc), (λ h. cc))
order_json-thrown json protobuf (cancel_order order) = ((λ h. cc), (λ h. cc))
order_json-thrown json protobuf (send_order order) = ((λ h. cc), (λ h. cc))
order_json-thrown json protobuf (token_freeze order) = ((λ h. cc), (λ h. cc))
order_json-thrown json protobuf (token_unfreeze order) = ((λ h. cc), (λ h. cc))
order_json-thrown json protobuf (other name) = ((λ h. refl), (λ h. refl))

-- What `sign` gives: no signature, or the bytes of a low one, if it does not throw.
abbrev pub LowOrEmpty : (ℕ → ℕ → Point) → List ℕ → Type 0
LowOrEmpty table signature = (signature ≡ []) ⊎ IsLow (secp256k1 table) (signature, 0)

abbrev pub Signature : (ℕ → ℕ → Point) → Outcome (List ℕ) → Type 0
Signature table (thrown e) = Unit
Signature table (returned signature) = LowOrEmpty table signature

module _ (table : ℕ → ℕ → Point) where
  module _ (signer : Signer) (f : IsField (secp256k1 table)) (g : IsOrder (secp256k1 table))
      (t : IsTable (secp256k1 table) f) (hp : All IsByte signer.private_key) where
    sign_text-Low :
        (pre_image : List ℕ) → Always (LowOrEmpty table) (sign_text table signer pre_image)
    unfolding sign_text
    sign_text-Low pre_image =
        bind-Always
          (ecdsa_sign_digest-Low (secp256k1 table) none signer.private_key (sha256_raw pre_image) f
            g t hp (sha256_raw-IsByte pre_image))
          either
      where
        either :
            (result : Option Signed)
            → Low (secp256k1 table) result
            → Always (LowOrEmpty table) (elim result [ none ↦ pure [] | some (sig, by) ↦ pure sig ])
        either none h = pure-Always (inl refl)
        either (some (sig, by)) h = pure-Always (
            inr (record {
              full = h.full;
              bytes = h.bytes;
              r_positive = h.r_positive;
              s_positive = h.s_positive;
              s_low = h.s_low;
            }))

    -- What `Signer::sign` returns, if it does not throw, is empty or 64 bytes with a positive `r` and
    -- a positive `s` that is at most half of the order, whatever the order, the JSON library and the
    -- random words are; for a private key of bytes, a table of points with reduced coordinates, and
    -- secp256k1 meeting `IsField` (an odd normalized prime between `2^256 - 2^224` and `2^256`, whose
    -- lowest limb is at least 2 and at least `-a`, `-a` at most 3, and a normalized `b`) and `IsOrder`
    -- (a normalized order between the same bounds whose lowest limb is at least 2, and which is one
    -- more than twice the normalized `order_half`).
    pub sign-Signature :
        {J : Type 0} (json : JsonLibrary J) → Always (Signature table) (sign json table signer)
    unfolding sign
    sign-Signature json = after (signature_preimage json signer)
      where
        after :
            (o : Outcome (List ℕ))
            → Always (Signature table) (elim o [
              | returned pre_image ↦
                  sign_text table signer pre_image >>= λ signature. pure (returned signature)
              | thrown e ↦ pure (thrown e)
            ])
        after (returned pre_image) = bind-Always (sign_text-Low pre_image) (λ s h. pure-Always h)
        after (thrown e) = pure-Always tt

wrapped-append : (xs : List ℕ) (y : ℕ) (ys : List ℕ) → (xs ++ (y ∷ ys)) ≢ []
wrapped-append [] y ys h = cc
wrapped-append (x ∷ xs) y ys h = cc

module _ (protobuf : Protobuf) (table : ℕ → ℕ → Point) (signer : Signer) where
  encode_transaction-nonempty :
      (signature : List ℕ) → encode_transaction protobuf signer signature ≢ []
  unfolding encode_transaction amino_wrap
  encode_transaction-nonempty signature = wrapped-append _ _ _

  -- A transaction is empty exactly for an empty signature.
  build_from-empty :
      (signature words rest : List ℕ)
      → build_from protobuf table signer signature words ≡ some ([], rest)
      → signature ≡ []
  unfolding build_from
  build_from-empty [] words rest h = refl
  build_from-empty (x ∷ xs) words rest h =
      let ((encoded, w), e, k) =
        bind-some (encode_signature protobuf table signer (x ∷ xs))
          (λ encoded. pure (encode_transaction protobuf signer encoded)) h in
      absurd (encode_transaction-nonempty encoded (cc))

  -- For all random words, `Signer::build` returns the empty vector, leaving the same words, exactly
  -- if `Signer::sign` does.
  pub build-empty :
      {J : Type 0} (json : JsonLibrary J) (words rest : List ℕ)
      → (build protobuf table json signer words ≡ some (returned [], rest))
        ↔ (sign json table signer words ≡ some (returned [], rest))
  unfolding build build_from
  build-empty json words rest = (forth, (λ h. some-bind (sign json table signer) _ h))
    where
      of_result :
          (o : Outcome (List ℕ)) (w : List ℕ)
          → (elim o as (λ _. Random (Outcome (List ℕ))) [
            | returned signature ↦ build_from protobuf table signer signature >>= λ transaction.
                pure (returned transaction)
            | thrown e ↦ pure (thrown e)
          ])
              w
            ≡ some (returned [], rest)
          → ◌≡◌ {A = Option (Outcome (List ℕ) × List ℕ)} (some (o, w)) (some (returned [], rest))
      of_result (thrown e) w h = absurd (cc)
      of_result (returned []) w h = h
      of_result (returned (x ∷ xs)) w h =
          let ((t, w'), e, k) = bind-some (build_from protobuf table signer (x ∷ xs)) _ h in
          let empty = build_from-empty (x ∷ xs) w w' (cc) in absurd (cc)

      forth :
          build protobuf table json signer words ≡ some (returned [], rest)
          → sign json table signer words ≡ some (returned [], rest)
      forth h = let ((o, w), e, k) = bind-some (sign json table signer) _ h in e ∙ of_result o w k
