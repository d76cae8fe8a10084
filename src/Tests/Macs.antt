-- ===== src/Tests/Macs.antt =====
-- Message authentication codes, and the theorem on them at a key and a message.
use aex_cpp_sdk.Base.{[], ◌∷◌, ◌++◌, ◌≡◌, refl, replicate, map, bit_xor}
use aex_cpp_sdk.Sha2.Logic
use aex_cpp_sdk.Sha2.Sha256
use aex_cpp_sdk.Sha2.Sha512
use aex_cpp_sdk.Sha2.Frame
use aex_cpp_sdk.Sha2.Digest
use aex_cpp_sdk.Hmac
use aex_cpp_sdk.Hmac.Nested.{hmac_sha256_lem}

hmac256_short :
    Hmac.hmac_sha256 (replicate 20 107) (97 ∷ 98 ∷ 99 ∷ [])
    ≡ 0x7c ∷ 0xc2 ∷ 0xd3 ∷ 0x26 ∷ 0xfd ∷ 0x47 ∷ 0x26 ∷ 0x3c ∷ 0x89 ∷ 0x23 ∷ 0x20 ∷ 0x82 ∷ 0xaa
      ∷ 0xcf ∷ 0xe2 ∷ 0xa4 ∷ 0xb1 ∷ 0x88 ∷ 0x95 ∷ 0xfd ∷ 0x95 ∷ 0x4b ∷ 0x81 ∷ 0x54 ∷ 0x5a ∷ 0xcb
      ∷ 0x23 ∷ 0xe5 ∷ 0x75 ∷ 0x55 ∷ 0x4c ∷ 0xc3 ∷ []
unfolding Hmac.hmac_sha256 Hmac.hmac_sha256_init Hmac.hmac_sha256_update Hmac.hmac_sha256_final
    Hmac.key_block256 Digest.sha256_raw Digest.sha256_init Digest.sha256_update Digest.sha256_final
    Digest.bit_words Frame.load Frame.store Frame.load_words Frame.store_words Frame.overwrite
    Frame.copy_at Frame.process Frame.used_space Frame.copy_in Frame.left_overs Frame.blocks
    Frame.all_blocks Frame.update Frame.init Frame.clear Frame.pad_block Frame.last_block Frame.last
    Frame.final Sha256.transform Logic.reverse32
hmac256_short = refl

hmac256_long :
    Hmac.hmac_sha256 (replicate 200 107) (97 ∷ 98 ∷ 99 ∷ [])
    ≡ 0xce ∷ 0x63 ∷ 0x2a ∷ 0xa8 ∷ 0x6d ∷ 0x6a ∷ 0x3f ∷ 0xd3 ∷ 0xc7 ∷ 0x9f ∷ 0x06 ∷ 0x21 ∷ 0x7c
      ∷ 0x0a ∷ 0x50 ∷ 0x65 ∷ 0x99 ∷ 0xd0 ∷ 0x55 ∷ 0xcd ∷ 0x38 ∷ 0xeb ∷ 0x38 ∷ 0x5b ∷ 0x16 ∷ 0xa2
      ∷ 0x93 ∷ 0x9f ∷ 0x24 ∷ 0x88 ∷ 0xf6 ∷ 0x86 ∷ []
unfolding Hmac.hmac_sha256 Hmac.hmac_sha256_init Hmac.hmac_sha256_update Hmac.hmac_sha256_final
    Hmac.key_block256 Digest.sha256_raw Digest.sha256_init Digest.sha256_update Digest.sha256_final
    Digest.bit_words Frame.load Frame.store Frame.load_words Frame.store_words Frame.overwrite
    Frame.copy_at Frame.process Frame.used_space Frame.copy_in Frame.left_overs Frame.blocks
    Frame.all_blocks Frame.update Frame.init Frame.clear Frame.pad_block Frame.last_block Frame.last
    Frame.final Sha256.transform Logic.reverse32
hmac256_long = refl

prepared256 : Hmac.hmac_sha256_prepare (replicate 20 107) ≡ (
  (Digest.sha256_update Digest.sha256_init
      (map (λ b. bit_xor b 0x5c) (Hmac.key_block256 (replicate 20 107)))).state,
  (Digest.sha256_update Digest.sha256_init
      (map (λ b. bit_xor b 0x36) (Hmac.key_block256 (replicate 20 107)))).state,
)
unfolding Hmac.hmac_sha256_prepare Hmac.key_words256 Hmac.key_block256 Digest.sha256_raw
    Digest.sha256_init Digest.sha256_update Digest.sha256_final Digest.bit_words Frame.load
    Frame.store Frame.load_words Frame.store_words Frame.overwrite Frame.copy_at Frame.process
    Frame.used_space Frame.copy_in Frame.left_overs Frame.blocks Frame.all_blocks Frame.update
    Frame.init Frame.clear Frame.pad_block Frame.last_block Frame.last Frame.final Sha256.transform
    Logic.reverse32
prepared256 = refl

hmac512_short :
    Hmac.hmac_sha512 (replicate 100 107) (97 ∷ 98 ∷ 99 ∷ [])
    ≡ 0xed ∷ 0x99 ∷ 0xa1 ∷ 0x28 ∷ 0x4c ∷ 0x39 ∷ 0x58 ∷ 0x69 ∷ 0x42 ∷ 0xdd ∷ 0x1e ∷ 0x80 ∷ 0x2e
      ∷ 0xd6 ∷ 0x7e ∷ 0x0f ∷ 0x54 ∷ 0xf6 ∷ 0xaf ∷ 0xb6 ∷ 0xb6 ∷ 0x24 ∷ 0x81 ∷ 0xad ∷ 0x16 ∷ 0xc8
      ∷ 0x24 ∷ 0x67 ∷ 0xee ∷ 0x5d ∷ 0x09 ∷ 0xd1 ∷ 0x9d ∷ 0xc6 ∷ 0x63 ∷ 0xa1 ∷ 0x34 ∷ 0xe2 ∷ 0x39
      ∷ 0x50 ∷ 0x5c ∷ 0x9d ∷ 0x8e ∷ 0x22 ∷ 0x1c ∷ 0xa9 ∷ 0x8a ∷ 0x3d ∷ 0x51 ∷ 0x3c ∷ 0x67 ∷ 0x02
      ∷ 0x16 ∷ 0xc7 ∷ 0x14 ∷ 0x23 ∷ 0x5f ∷ 0xee ∷ 0x63 ∷ 0xed ∷ 0xaf ∷ 0x71 ∷ 0x7c ∷ 0xe8 ∷ []
unfolding Hmac.hmac_sha512 Hmac.hmac_sha512_init Hmac.hmac_sha512_update Hmac.hmac_sha512_final
    Hmac.key_block512 Digest.sha512_raw Digest.sha512_init Digest.sha512_update Digest.sha512_final
    Digest.addinc128 Digest.count_words128 Frame.load Frame.store Frame.load_words Frame.store_words
    Frame.overwrite Frame.copy_at Frame.process Frame.used_space Frame.copy_in Frame.left_overs
    Frame.blocks Frame.all_blocks Frame.update Frame.init Frame.clear Frame.pad_block
    Frame.last_block Frame.last Frame.final Sha512.transform Logic.reverse64
hmac512_short = refl

hmac512_long :
    Hmac.hmac_sha512 (replicate 200 107) (97 ∷ 98 ∷ 99 ∷ [])
    ≡ 0x60 ∷ 0x00 ∷ 0x57 ∷ 0xe6 ∷ 0xcb ∷ 0xa9 ∷ 0xce ∷ 0x3e ∷ 0x07 ∷ 0x8c ∷ 0x0a ∷ 0xe3 ∷ 0x2f
      ∷ 0x0b ∷ 0xa3 ∷ 0xa7 ∷ 0x86 ∷ 0x00 ∷ 0x2d ∷ 0x1d ∷ 0xa4 ∷ 0x85 ∷ 0x39 ∷ 0x45 ∷ 0xc8 ∷ 0x99
      ∷ 0xaa ∷ 0x76 ∷ 0x78 ∷ 0xf9 ∷ 0x32 ∷ 0xf0 ∷ 0x3c ∷ 0x77 ∷ 0x20 ∷ 0x00 ∷ 0x44 ∷ 0xe6 ∷ 0x68
      ∷ 0xac ∷ 0x0a ∷ 0xe8 ∷ 0x90 ∷ 0x29 ∷ 0xa0 ∷ 0x8c ∷ 0xae ∷ 0x59 ∷ 0xb9 ∷ 0xed ∷ 0x7f ∷ 0x93
      ∷ 0xff ∷ 0xed ∷ 0x3b ∷ 0x39 ∷ 0x37 ∷ 0x1e ∷ 0x4d ∷ 0x4f ∷ 0x08 ∷ 0xc3 ∷ 0xc3 ∷ 0x76 ∷ []
unfolding Hmac.hmac_sha512 Hmac.hmac_sha512_init Hmac.hmac_sha512_update Hmac.hmac_sha512_final
    Hmac.key_block512 Digest.sha512_raw Digest.sha512_init Digest.sha512_update Digest.sha512_final
    Digest.addinc128 Digest.count_words128 Frame.load Frame.store Frame.load_words Frame.store_words
    Frame.overwrite Frame.copy_at Frame.process Frame.used_space Frame.copy_in Frame.left_overs
    Frame.blocks Frame.all_blocks Frame.update Frame.init Frame.clear Frame.pad_block
    Frame.last_block Frame.last Frame.final Sha512.transform Logic.reverse64
hmac512_long = refl

prepared512 : Hmac.hmac_sha512_prepare (replicate 20 107) ≡ (
  (Digest.sha512_update Digest.sha512_init
      (map (λ b. bit_xor b 0x5c) (Hmac.key_block512 (replicate 20 107)))).state,
  (Digest.sha512_update Digest.sha512_init
      (map (λ b. bit_xor b 0x36) (Hmac.key_block512 (replicate 20 107)))).state,
)
unfolding Hmac.hmac_sha512_prepare Hmac.key_words512 Hmac.key_block512 Digest.sha512_raw
    Digest.sha512_init Digest.sha512_update Digest.sha512_final Digest.addinc128
    Digest.count_words128 Frame.load Frame.store Frame.load_words Frame.store_words Frame.overwrite
    Frame.copy_at Frame.process Frame.used_space Frame.copy_in Frame.left_overs Frame.blocks
    Frame.all_blocks Frame.update Frame.init Frame.clear Frame.pad_block Frame.last_block Frame.last
    Frame.final Sha512.transform Logic.reverse64
prepared512 = refl

hmac_sha256_lem_example :
    Hmac.hmac_sha256 (replicate 100 107) (97 ∷ 98 ∷ 99 ∷ [])
    ≡ Digest.sha256_raw (
        map (λ b. bit_xor b 0x5c) (Hmac.key_block256 (replicate 100 107))
        ++ Digest.sha256_raw (
            map (λ b. bit_xor b 0x36) (Hmac.key_block256 (replicate 100 107))
            ++ (97 ∷ 98 ∷ 99 ∷ [])))
hmac_sha256_lem_example = hmac_sha256_lem (replicate 100 107) (97 ∷ 98 ∷ 99 ∷ [])
