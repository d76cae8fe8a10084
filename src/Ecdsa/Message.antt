-- ===== src/Ecdsa/Message.antt =====
-- The functions of src/crypto/ecdsa.c that hash: messages to sign and verify, and addresses of keys.
use aex_cpp_sdk.Base.{ℕ, List, ◌∷◌, ◌++◌, ◌==◌, if◌then◌else◌, Option, take, get_or}
use aex_cpp_sdk.Prefix.{address_write_prefix_bytes}
use aex_cpp_sdk.Hasher.{HasherType, hasher_raw}
use aex_cpp_sdk.Ecdsa.Curve.{Curve}
use aex_cpp_sdk.Ecdsa.Jacobian.{Random}
use aex_cpp_sdk.Ecdsa.Signature.{Canonical, Signed, ecdsa_sign_digest, ecdsa_verify_digest}

-- `ecdsa_sign` and `ecdsa_verify`.
unfoldable pub ecdsa_sign :
    Curve → HasherType → Canonical → List ℕ → List ℕ → Random (Option Signed)
ecdsa_sign curve hasher_sign canonical priv_key msg =
    ecdsa_sign_digest curve canonical priv_key (hasher_raw hasher_sign msg)

unfoldable pub ecdsa_verify : Curve → HasherType → List ℕ → List ℕ → List ℕ → Random ℕ
ecdsa_verify curve hasher_sign pub_key sig msg =
    ecdsa_verify_digest curve pub_key sig (hasher_raw hasher_sign msg)

-- The number of bytes of a key that are hashed.
unfoldable pub key_length : List ℕ → ℕ
key_length pub_key =
    if get_or pub_key 0 0 == 0x04 then 65 else if get_or pub_key 0 0 == 0x00 then 1 else 33

-- `ecdsa_get_pubkeyhash`.
unfoldable pub ecdsa_get_pubkeyhash : List ℕ → HasherType → List ℕ
ecdsa_get_pubkeyhash pub_key hasher_pubkey =
    take 20 (hasher_raw hasher_pubkey (take (key_length pub_key) pub_key))

-- `ecdsa_get_address_raw` and `ecdsa_get_address_segwit_p2sh_raw`.
unfoldable pub ecdsa_get_address_raw : List ℕ → ℕ → HasherType → List ℕ
ecdsa_get_address_raw pub_key version hasher_pubkey =
    address_write_prefix_bytes version ++ ecdsa_get_pubkeyhash pub_key hasher_pubkey

unfoldable pub ecdsa_get_address_segwit_p2sh_raw : List ℕ → ℕ → HasherType → List ℕ
ecdsa_get_address_segwit_p2sh_raw pub_key version hasher_pubkey =
    let buf = 0 ∷ 20 ∷ ecdsa_get_pubkeyhash pub_key hasher_pubkey in
    address_write_prefix_bytes version ++ hasher_raw hasher_pubkey buf
