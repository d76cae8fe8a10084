-- ===== src/Prefix.antt =====
-- src/crypto/address.c: the version prefix of an address, in one to four bytes.
pub mod Check
use aex_cpp_sdk.Base.{ℕ, ◌<<◌, ◌>>◌, List, [], ◌∷◌, ◌++◌, Bool, leb, ltb, ◌==◌, if◌then◌else◌}
use aex_cpp_sdk.Base.{get_or, bit_and, bit_or, u8, u32}

-- `address_prefix_bytes_len`.
unfoldable pub address_prefix_bytes_len : ℕ → ℕ
address_prefix_bytes_len address_type =
    if leb address_type 0xFF
    then 1
    else if leb address_type 0xFFFF
    then 2
    else if leb address_type 0xFFFFFF
    then 3
    else 4

-- `address_write_prefix_bytes`: the bytes that it writes.
unfoldable pub address_write_prefix_bytes : ℕ → List ℕ
address_write_prefix_bytes address_type =
    (if ltb 0xFFFFFF address_type then u8 (address_type >> 24) ∷ [] else [])
    ++ ((if ltb 0xFFFF address_type then bit_and (address_type >> 16) 0xFF ∷ [] else [])
        ++ ((if ltb 0xFF address_type then bit_and (address_type >> 8) 0xFF ∷ [] else [])
            ++ (bit_and address_type 0xFF ∷ [])))

-- `address_check_prefix`.
unfoldable pub address_check_prefix : List ℕ → ℕ → Bool
address_check_prefix addr address_type =
    let a = get_or addr 0 0 in
    let b = get_or addr 1 0 in
    let c = get_or addr 2 0 in
    let d = get_or addr 3 0 in
    if leb address_type 0xFF
    then address_type == a
    else if leb address_type 0xFFFF
    then address_type == bit_or (u32 (a << 8)) b
    else if leb address_type 0xFFFFFF
    then address_type == bit_or (bit_or (u32 (a << 16)) (u32 (b << 8))) c
    else address_type == bit_or (bit_or (bit_or (u32 (a << 24)) (u32 (b << 16))) (u32 (c << 8))) d
