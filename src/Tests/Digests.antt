-- ===== src/Tests/Digests.antt =====
-- Digests of the test vectors of FIPS 180-4.
use aex_cpp_sdk.Base.{map, [], ◌∷◌, ◌++◌, ◌≡◌, refl, replicate, length}
use aex_cpp_sdk.Bech32.Charset.{codes}
use aex_cpp_sdk.Ripemd160
use aex_cpp_sdk.Ripemd160.Process
use aex_cpp_sdk.Hasher
use aex_cpp_sdk.Sha2.Logic
use aex_cpp_sdk.Sha2.Sha1
use aex_cpp_sdk.Sha2.Sha256
use aex_cpp_sdk.Sha2.Sha512
use aex_cpp_sdk.Sha2.Frame
use aex_cpp_sdk.Sha2.Digest
use aex_cpp_sdk.Sha2.Digest.{
  sha1_raw, sha256_raw, sha512_raw, sha1_init, sha1_update, sha256_init, sha256_update,
}
use aex_cpp_sdk.Sha2.Digest.Pieces.{sha256_update-append}
use aex_cpp_sdk.Sha2.Digest.Padded.{sha256_raw-close}
use aex_cpp_sdk.Sha2.Frame.Absorb.{absorb_all}
use aex_cpp_sdk.Sha2.Frame.Padding.{close}

sha1_abc :
    sha1_raw (97 ∷ 98 ∷ 99 ∷ [])
    ≡ 0xa9 ∷ 0x99 ∷ 0x3e ∷ 0x36 ∷ 0x47 ∷ 0x06 ∷ 0x81 ∷ 0x6a ∷ 0xba ∷ 0x3e ∷ 0x25 ∷ 0x71 ∷ 0x78
      ∷ 0x50 ∷ 0xc2 ∷ 0x6c ∷ 0x9c ∷ 0xd0 ∷ 0xd8 ∷ 0x9d ∷ []
unfolding sha1_raw Digest.sha1_init Digest.sha1_update Digest.sha1_final Digest.bit_words Frame.load
    Frame.store Frame.load_words Frame.store_words Frame.overwrite Frame.copy_at Frame.process
    Frame.used_space Frame.copy_in Frame.left_overs Frame.blocks Frame.all_blocks Frame.update
    Frame.init Frame.clear Frame.pad_block Frame.last_block Frame.last Frame.final Sha1.transform
    Logic.reverse32
sha1_abc = refl

sha256_abc :
    sha256_raw (97 ∷ 98 ∷ 99 ∷ [])
    ≡ 0xba ∷ 0x78 ∷ 0x16 ∷ 0xbf ∷ 0x8f ∷ 0x01 ∷ 0xcf ∷ 0xea ∷ 0x41 ∷ 0x41 ∷ 0x40 ∷ 0xde ∷ 0x5d
      ∷ 0xae ∷ 0x22 ∷ 0x23 ∷ 0xb0 ∷ 0x03 ∷ 0x61 ∷ 0xa3 ∷ 0x96 ∷ 0x17 ∷ 0x7a ∷ 0x9c ∷ 0xb4 ∷ 0x10
      ∷ 0xff ∷ 0x61 ∷ 0xf2 ∷ 0x00 ∷ 0x15 ∷ 0xad ∷ []
unfolding sha256_raw Digest.sha256_init Digest.sha256_update Digest.sha256_final Digest.bit_words
    Frame.load Frame.store Frame.load_words Frame.store_words Frame.overwrite Frame.copy_at
    Frame.process Frame.used_space Frame.copy_in Frame.left_overs Frame.blocks Frame.all_blocks
    Frame.update Frame.init Frame.clear Frame.pad_block Frame.last_block Frame.last Frame.final
    Sha256.transform Logic.reverse32
sha256_abc = refl

sha512_abc :
    sha512_raw (97 ∷ 98 ∷ 99 ∷ [])
    ≡ 0xdd ∷ 0xaf ∷ 0x35 ∷ 0xa1 ∷ 0x93 ∷ 0x61 ∷ 0x7a ∷ 0xba ∷ 0xcc ∷ 0x41 ∷ 0x73 ∷ 0x49 ∷ 0xae
      ∷ 0x20 ∷ 0x41 ∷ 0x31 ∷ 0x12 ∷ 0xe6 ∷ 0xfa ∷ 0x4e ∷ 0x89 ∷ 0xa9 ∷ 0x7e ∷ 0xa2 ∷ 0x0a ∷ 0x9e
      ∷ 0xee ∷ 0xe6 ∷ 0x4b ∷ 0x55 ∷ 0xd3 ∷ 0x9a ∷ 0x21 ∷ 0x92 ∷ 0x99 ∷ 0x2a ∷ 0x27 ∷ 0x4f ∷ 0xc1
      ∷ 0xa8 ∷ 0x36 ∷ 0xba ∷ 0x3c ∷ 0x23 ∷ 0xa3 ∷ 0xfe ∷ 0xeb ∷ 0xbd ∷ 0x45 ∷ 0x4d ∷ 0x44 ∷ 0x23
      ∷ 0x64 ∷ 0x3c ∷ 0xe8 ∷ 0x0e ∷ 0x2a ∷ 0x9a ∷ 0xc9 ∷ 0x4f ∷ 0xa5 ∷ 0x4c ∷ 0xa4 ∷ 0x9f ∷ []
unfolding sha512_raw Digest.sha512_init Digest.sha512_update Digest.sha512_final Digest.addinc128
    Digest.count_words128 Frame.load Frame.store Frame.load_words Frame.store_words Frame.overwrite
    Frame.copy_at Frame.process Frame.used_space Frame.copy_in Frame.left_overs Frame.blocks
    Frame.all_blocks Frame.update Frame.init Frame.clear Frame.pad_block Frame.last_block Frame.last
    Frame.final Sha512.transform Logic.reverse64
sha512_abc = refl

sha1_text : Digest.sha1_data (replicate 120 97) ≡ codes "f34c1488385346a55709ba056ddd08280dd4c6d6"
unfolding Digest.sha1_data Digest.sha1_end Frame.hex_digit Frame.hex_text Digest.sha1_init
    Digest.sha1_update Digest.sha1_final Digest.bit_words Frame.load Frame.store Frame.load_words
    Frame.store_words Frame.overwrite Frame.copy_at Frame.process Frame.used_space Frame.copy_in
    Frame.left_overs Frame.blocks Frame.all_blocks Frame.update Frame.init Frame.clear
    Frame.pad_block Frame.last_block Frame.last Frame.final Sha1.transform Logic.reverse32
sha1_text = refl

sha256_text :
    Digest.sha256_data (replicate 120 97)
    ≡ codes "2f3d335432c70b580af0e8e1b3674a7c020d683aa5f73aaaedfdc55af904c21c"
unfolding Digest.sha256_data Digest.sha256_end Frame.hex_digit Frame.hex_text Digest.sha256_init
    Digest.sha256_update Digest.sha256_final Digest.bit_words Frame.load Frame.store
    Frame.load_words Frame.store_words Frame.overwrite Frame.copy_at Frame.process Frame.used_space
    Frame.copy_in Frame.left_overs Frame.blocks Frame.all_blocks Frame.update Frame.init Frame.clear
    Frame.pad_block Frame.last_block Frame.last Frame.final Sha256.transform Logic.reverse32
sha256_text = refl

sha512_text :
    Digest.sha512_data (replicate 120 97)
    ≡ codes
        "f241de612b01aa2fa3cf01531d2a8e5e17fc761dfd48a704a834a47f57d6eade7804ecc39be42fdef16ec6adeaf7c01c2fd0c4cc97d3860907cfa4a3b36d0c05"
unfolding Digest.sha512_data Digest.sha512_end Frame.hex_digit Frame.hex_text Digest.sha512_init
    Digest.sha512_update Digest.sha512_final Digest.addinc128 Digest.count_words128 Frame.load
    Frame.store Frame.load_words Frame.store_words Frame.overwrite Frame.copy_at Frame.process
    Frame.used_space Frame.copy_in Frame.left_overs Frame.blocks Frame.all_blocks Frame.update
    Frame.init Frame.clear Frame.pad_block Frame.last_block Frame.last Frame.final Sha512.transform
    Logic.reverse64
sha512_text = refl

sha512_state : length (Digest.sha512_last Digest.sha512_init) ≡ 8
unfolding Digest.sha512_last Digest.sha512_init Digest.sha512_update Digest.sha512_final
    Digest.addinc128 Digest.count_words128 Frame.load Frame.store Frame.load_words Frame.store_words
    Frame.overwrite Frame.copy_at Frame.process Frame.used_space Frame.copy_in Frame.left_overs
    Frame.blocks Frame.all_blocks Frame.update Frame.init Frame.clear Frame.pad_block
    Frame.last_block Frame.last Frame.final Sha512.transform Logic.reverse64
sha512_state = refl

sha256_update-append_example :
    sha256_update sha256_init (replicate 70 1 ++ replicate 60 2)
    ≡ sha256_update (sha256_update sha256_init (replicate 70 1)) (replicate 60 2)
sha256_update-append_example = sha256_update-append sha256_init (replicate 70 1) (replicate 60 2)

sha256_raw-close_example :
    sha256_raw (replicate 56 97)
    ≡ Frame.store_words 4 (
        map Logic.reverse32 (
          close Digest.sha256
            (absorb_all Digest.sha256 (Sha256.sha256_initial_hash_value, []) (replicate 56 97))
            448))
sha256_raw-close_example = sha256_raw-close (replicate 56 97)

ripemd160_abc :
    Ripemd160.ripemd160 (97 ∷ 98 ∷ 99 ∷ [])
    ≡ 0x8e ∷ 0xb2 ∷ 0x08 ∷ 0xf7 ∷ 0xe0 ∷ 0x5d ∷ 0x98 ∷ 0x7a ∷ 0x9b ∷ 0x04 ∷ 0x4a ∷ 0x8e ∷ 0x98
      ∷ 0xc6 ∷ 0xb0 ∷ 0x87 ∷ 0xf1 ∷ 0x5a ∷ 0x0b ∷ 0xfc ∷ []
unfolding Ripemd160.ripemd160 Ripemd160.ripemd160_init Ripemd160.ripemd160_update
    Ripemd160.ripemd160_final Ripemd160.count_bytes Ripemd160.fill_buffer Ripemd160.process_block
    Ripemd160.whole_blocks Ripemd160.message_length Process.ripemd160_process Frame.load Frame.store
    Frame.load_words Frame.store_words Frame.overwrite Frame.copy_at
ripemd160_abc = refl

ripemd160_long :
    Ripemd160.ripemd160 (replicate 150 97)
    ≡ 0x9a ∷ 0x60 ∷ 0x07 ∷ 0xb9 ∷ 0x1d ∷ 0x91 ∷ 0x1b ∷ 0x6f ∷ 0xf2 ∷ 0x7f ∷ 0xc3 ∷ 0x86 ∷ 0xa7
      ∷ 0x32 ∷ 0xef ∷ 0x36 ∷ 0xb4 ∷ 0xfa ∷ 0xf6 ∷ 0x74 ∷ []
unfolding Ripemd160.ripemd160 Ripemd160.ripemd160_init Ripemd160.ripemd160_update
    Ripemd160.ripemd160_final Ripemd160.count_bytes Ripemd160.fill_buffer Ripemd160.process_block
    Ripemd160.whole_blocks Ripemd160.message_length Process.ripemd160_process Frame.load Frame.store
    Frame.load_words Frame.store_words Frame.overwrite Frame.copy_at
ripemd160_long = refl

-- The last 12 bytes are those of SHA-256.
hash_of_hash :
    Hasher.hasher_raw Hasher.hasher_sha2_ripemd (97 ∷ 98 ∷ 99 ∷ [])
    ≡ 0xbb ∷ 0x1b ∷ 0xe9 ∷ 0x8c ∷ 0x14 ∷ 0x24 ∷ 0x44 ∷ 0xd7 ∷ 0xa5 ∷ 0x6a ∷ 0xa3 ∷ 0x98 ∷ 0x1c
      ∷ 0x39 ∷ 0x42 ∷ 0xa9 ∷ 0x78 ∷ 0xe4 ∷ 0xdc ∷ 0x33 ∷ 0x96 ∷ 0x17 ∷ 0x7a ∷ 0x9c ∷ 0xb4 ∷ 0x10
      ∷ 0xff ∷ 0x61 ∷ 0xf2 ∷ 0x00 ∷ 0x15 ∷ 0xad ∷ []
unfolding Hasher.hasher_init Hasher.hasher_update Hasher.hasher_final Hasher.hasher_raw
    Hasher.finish Ripemd160.ripemd160 Ripemd160.ripemd160_init Ripemd160.ripemd160_update
    Ripemd160.ripemd160_final Ripemd160.count_bytes Ripemd160.fill_buffer Ripemd160.process_block
    Ripemd160.whole_blocks Ripemd160.message_length Process.ripemd160_process Frame.load Frame.store
    Frame.load_words Frame.store_words Frame.overwrite Frame.copy_at Frame.process Frame.used_space
    Frame.copy_in Frame.left_overs Frame.blocks Frame.all_blocks Frame.update Frame.init Frame.clear
    Frame.pad_block Frame.last_block Frame.last Frame.final Sha256.transform Logic.reverse32
    Digest.sha256_init Digest.sha256_update Digest.sha256_final Digest.bit_words
hash_of_hash = refl

double_hash :
    Hasher.hasher_raw Hasher.hasher_sha2d (97 ∷ 98 ∷ 99 ∷ [])
    ≡ 0x4f ∷ 0x8b ∷ 0x42 ∷ 0xc2 ∷ 0x2d ∷ 0xd3 ∷ 0x72 ∷ 0x9b ∷ 0x51 ∷ 0x9b ∷ 0xa6 ∷ 0xf6 ∷ 0x8d
      ∷ 0x2d ∷ 0xa7 ∷ 0xcc ∷ 0x5b ∷ 0x2d ∷ 0x60 ∷ 0x6d ∷ 0x05 ∷ 0xda ∷ 0xed ∷ 0x5a ∷ 0xd5 ∷ 0x12
      ∷ 0x8c ∷ 0xc0 ∷ 0x3e ∷ 0x6c ∷ 0x63 ∷ 0x58 ∷ []
unfolding Hasher.hasher_init Hasher.hasher_update Hasher.hasher_final Hasher.hasher_raw
    Hasher.finish Frame.load Frame.store Frame.load_words Frame.store_words Frame.overwrite
    Frame.copy_at Frame.process Frame.used_space Frame.copy_in Frame.left_overs Frame.blocks
    Frame.all_blocks Frame.update Frame.init Frame.clear Frame.pad_block Frame.last_block Frame.last
    Frame.final Sha256.transform Logic.reverse32 Digest.sha256_init Digest.sha256_update
    Digest.sha256_final Digest.bit_words
double_hash = refl
