-- ===== src/Hasher/Pieces.antt =====
-- src/crypto/hasher.c on a message that comes in pieces.
use aex_cpp_sdk.Base.{
  ℕ, ◌≡◌, refl, sym, ap, ◌∙◌, List, [], ◌∷◌, ◌++◌, length, take, drop, take-length-append,
  drop-length-append, All, IsByte,
}
use mathlib.Core.Path.{subst}
use aex_cpp_sdk.Sha2.Frame.{Context, update}
use aex_cpp_sdk.Sha2.Digest.{sha256_update, sha256_final, sha256_raw}
use aex_cpp_sdk.Sha2.Digest.Pieces.{sha256_update-append}
use aex_cpp_sdk.Ripemd160.{ripemd160}
use aex_cpp_sdk.Hasher.{
  HasherType, hasher_sha2, hasher_sha2d, hasher_sha2_ripemd, Hasher, hasher_init, hasher_reset,
  hasher_update, finish, hasher_final,
}
use aex_cpp_sdk.Hasher.Bytes.{ripemd160-Bytes, hasher_final-Bytes}

-- A `hasher_Update` for each piece.
unfoldable pub updates : Hasher → List (List ℕ) → Hasher
updates hasher [] = hasher
updates hasher (piece ∷ pieces) = updates (hasher_update hasher piece) pieces

-- The message in the pieces.
unfoldable pub joined : List (List ℕ) → List ℕ
joined [] = []
joined (piece ∷ pieces) = piece ++ joined pieces

-- What a digest of each type is to be. A digest of RIPEMD-160 is followed by the rest of the one of
-- SHA-256.
unfoldable pub IsDigest : HasherType → List ℕ → List ℕ → Type 0
IsDigest hasher_sha2 message out = out ≡ sha256_raw message
IsDigest hasher_sha2d message out = out ≡ sha256_raw (sha256_raw message)
IsDigest hasher_sha2_ripemd message out =
    (take 20 out ≡ ripemd160 (sha256_raw message)) × (drop 20 out ≡ drop 20 (sha256_raw message))

updates-type :
    (hasher : Hasher) (pieces : List (List ℕ)) → (updates hasher pieces).type ≡ hasher.type
unfolding updates hasher_update
updates-type hasher [] = refl
updates-type hasher (piece ∷ pieces) = updates-type (hasher_update hasher piece) pieces

update_nothing : (c : Context ℕ) → sha256_update c [] ≡ c
unfolding sha256_update update
update_nothing c = refl

updates-ctx :
    (hasher : Hasher) (pieces : List (List ℕ))
    → (updates hasher pieces).ctx ≡ sha256_update hasher.ctx (joined pieces)
unfolding updates hasher_update joined
updates-ctx hasher [] = sym (update_nothing hasher.ctx)
updates-ctx hasher (piece ∷ pieces) =
    updates-ctx (hasher_update hasher piece) pieces
    ∙ sym (sha256_update-append hasher.ctx piece (joined pieces))

finish-IsDigest :
    (type : HasherType) (message : List ℕ)
    → IsDigest type message (finish type (sha256_raw message))
unfolding finish IsDigest sha256_raw
finish-IsDigest hasher_sha2 message = refl
finish-IsDigest hasher_sha2d message = refl
finish-IsDigest hasher_sha2_ripemd message =
    let hash = sha256_raw message in
    let count = (ripemd160-Bytes hash).count in
    (
      ap (λ (n : ℕ). take n (ripemd160 hash ++ drop 20 hash)) (sym count)
          ∙ take-length-append (ripemd160 hash) (drop 20 hash),
      ap (λ (n : ℕ). drop n (ripemd160 hash ++ drop 20 hash)) (sym count)
          ∙ drop-length-append (ripemd160 hash) (drop 20 hash),
    )

-- After `hasher_Reset` of a hasher in any state, an update for each piece of a message, however it
-- is cut, and `hasher_Final`: the 32 bytes are the SHA-256 digest of the whole message for
-- `HASHER_SHA2`, the digest of that digest for `HASHER_SHA2D`, and for `HASHER_SHA2_RIPEMD` the
-- RIPEMD-160 digest of the SHA-256 digest in the first 20 bytes, with the last 12 bytes of the
-- SHA-256 digest after them.
pub hasher_final-updates :
    (hasher : Hasher) (pieces : List (List ℕ))
    → IsDigest hasher.type (joined pieces) (hasher_final (updates (hasher_reset hasher) pieces))
      × (length (hasher_final (updates (hasher_reset hasher) pieces)) ≡ 32)
      × All IsByte (hasher_final (updates (hasher_reset hasher) pieces))
unfolding hasher_final hasher_reset hasher_init sha256_raw
hasher_final-updates hasher pieces =
    let start = hasher_reset hasher in
    let size = hasher_final-Bytes (updates start pieces) in
    (
      subst (IsDigest hasher.type (joined pieces))
          (sym (
              ap (λ (c : Context ℕ). finish hasher.type (sha256_final c))
                (updates-ctx start pieces))
            ∙ ap (λ (t : HasherType). finish t (sha256_final (updates start pieces).ctx))
                (sym (updates-type start pieces)))
          (finish-IsDigest hasher.type (joined pieces)),
      size.count,
      size.bytes,
    )
