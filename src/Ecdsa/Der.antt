-- ===== src/Ecdsa/Der.antt =====
-- `ecdsa_sig_to_der`.
pub mod Decode
use aex_cpp_sdk.Base.{ℕ, zero, suc, ◌+◌, ◌-◌, List, [], ◌∷◌, ◌++◌, leb, ◌==◌, if◌then◌else◌}
use aex_cpp_sdk.Base.{length, take, drop, get_or, u8}

-- The index of the first byte that is not zero, from `i` on, and at most `left` further.
unfoldable pub skip_zeros : List ℕ → ℕ → ℕ → ℕ
skip_zeros sig zero i = i
skip_zeros sig (suc left) i =
    let rest = skip_zeros sig left (i + 1) in if get_or sig i 0 == 0 then rest else i

-- The content of the integer whose 32 bytes begin at `start`. The byte at `i` is read also when all of
-- them are zero: `sig` is the memory at the pointer, and the default stands for what lies behind it.
unfoldable pub integer_bytes : List ℕ → ℕ → List ℕ
integer_bytes sig start =
    let i = skip_zeros sig 32 start in
    let body = take (start + 32 - i) (drop i sig) in
    if leb 0x80 (get_or sig i 0) then 0x00 ∷ body else body

-- The tag, the length and the content.
unfoldable pub der_integer : List ℕ → ℕ → List ℕ
der_integer sig start = let body = integer_bytes sig start in 0x02 ∷ u8 (length body) ∷ body

-- The bytes that are written, and the result.
unfoldable pub ecdsa_sig_to_der : List ℕ → List ℕ × ℕ
ecdsa_sig_to_der sig =
    let len1 = length (integer_bytes sig 0) in
    let len2 = length (integer_bytes sig 32) in
    let len = u8 (len1 + len2 + 4) in
    (0x30 ∷ len ∷ (der_integer sig 0 ++ der_integer sig 32), len + 2)
