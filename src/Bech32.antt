-- ===== src/Bech32.antt =====
-- src/Bech32.cpp and src/Bech32.h: the checksum, the string codec and the regrouping of bits.
-- Text and data are lists of bytes.
pub mod Charset
pub mod Checksum
pub mod Codec
pub mod ConvertBits
