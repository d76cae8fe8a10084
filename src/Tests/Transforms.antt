-- ===== src/Tests/Transforms.antt =====
-- The unrolled transforms and the hashers, at blocks and messages.
use aex_cpp_sdk.Base.{[], ◌∷◌, ◌++◌, ◌≡◌, replicate, length, All, IsByte}
use aex_cpp_sdk.Sha2.Sha1
use aex_cpp_sdk.Sha2.Sha256
use aex_cpp_sdk.Sha2.Sha512
use aex_cpp_sdk.Sha2.Unrolled
use aex_cpp_sdk.Sha2.Unrolled.Sha1.Rolled.{sha1_unrolled-transform}
use aex_cpp_sdk.Sha2.Unrolled.Sha256.Rolled.{sha256_unrolled-transform}
use aex_cpp_sdk.Sha2.Unrolled.Sha512.Rolled.{sha512_unrolled-transform}
use aex_cpp_sdk.Hasher.{
  Hasher, hasher_init, hasher_reset, hasher_update, hasher_final, hasher_sha2_ripemd,
}
use aex_cpp_sdk.Hasher.Pieces.{IsDigest, joined, updates, hasher_final-updates}

sha1_unrolled-transform_example :
    Unrolled.Sha1.unrolled_transform Sha1.sha1_initial_hash_value
      (0x61626380 ∷ replicate 14 0 ++ (24 ∷ []))
    ≡ Sha1.transform Sha1.sha1_initial_hash_value (0x61626380 ∷ replicate 14 0 ++ (24 ∷ []))
sha1_unrolled-transform_example =
    sha1_unrolled-transform Sha1.sha1_initial_hash_value (0x61626380 ∷ replicate 14 0 ++ (24 ∷ []))

sha256_unrolled-transform_example :
    Unrolled.Sha256.unrolled_transform Sha256.sha256_initial_hash_value
      (0x61626380 ∷ replicate 14 0 ++ (24 ∷ []))
    ≡ Sha256.transform Sha256.sha256_initial_hash_value (0x61626380 ∷ replicate 14 0 ++ (24 ∷ []))
sha256_unrolled-transform_example =
    sha256_unrolled-transform Sha256.sha256_initial_hash_value
      (0x61626380 ∷ replicate 14 0 ++ (24 ∷ []))

sha512_unrolled-transform_example :
    Unrolled.Sha512.unrolled_transform Sha512.sha512_initial_hash_value
      (0x6162638000000000 ∷ replicate 14 0 ++ (24 ∷ []))
    ≡ Sha512.transform Sha512.sha512_initial_hash_value
        (0x6162638000000000 ∷ replicate 14 0 ++ (24 ∷ []))
sha512_unrolled-transform_example =
    sha512_unrolled-transform Sha512.sha512_initial_hash_value
      (0x6162638000000000 ∷ replicate 14 0 ++ (24 ∷ []))

-- A hasher that holds other bytes.
abbrev used : Hasher
used = hasher_update (hasher_init hasher_sha2_ripemd) (replicate 70 1)

hasher_final-updates_example :
    IsDigest hasher_sha2_ripemd
      (joined (replicate 70 2 ∷ replicate 60 3 ∷ []))
      (hasher_final (updates (hasher_reset used) (replicate 70 2 ∷ replicate 60 3 ∷ [])))
    × (length (hasher_final (updates (hasher_reset used) (replicate 70 2 ∷ replicate 60 3 ∷ [])))
        ≡ 32)
    × All IsByte (hasher_final (updates (hasher_reset used) (replicate 70 2 ∷ replicate 60 3 ∷ [])))
unfolding hasher_update hasher_init
hasher_final-updates_example = hasher_final-updates used (replicate 70 2 ∷ replicate 60 3 ∷ [])
