-- ===== src/Bech32/Charset.antt =====
-- The two character tables of src/Bech32.cpp and `lc`.
use aex_cpp_sdk.Base.{ℕ, ◌+◌, ◌-◌, List, [], ◌∷◌, leb, ◌&&◌, if◌then◌else◌, get_or}
use Prim.Native.Char.{code}
use Prim.Native.String.{String}

-- The bytes of an ASCII text.
abbrev pub codes : String → List ℕ
codes String.[] = []
codes (String.◌∷◌ c s) = code c ∷ codes s

-- `charset`.
abbrev pub charset : List ℕ
charset = codes "qpzry9x8gf2tvdw0s3jn54khce6mua7l"

-- `charset_rev`, an array of `int8_t`, by bit patterns: 255 stands for -1.
abbrev pub charset_rev : List ℕ
charset_rev =
    255 ∷ 255 ∷ 255 ∷ 255 ∷ 255 ∷ 255 ∷ 255 ∷ 255 ∷ 255 ∷ 255 ∷ 255 ∷ 255 ∷ 255 ∷ 255 ∷ 255 ∷ 255
    ∷ 255 ∷ 255 ∷ 255 ∷ 255 ∷ 255 ∷ 255 ∷ 255 ∷ 255 ∷ 255 ∷ 255 ∷ 255 ∷ 255 ∷ 255 ∷ 255 ∷ 255 ∷ 255
    ∷ 255 ∷ 255 ∷ 255 ∷ 255 ∷ 255 ∷ 255 ∷ 255 ∷ 255 ∷ 255 ∷ 255 ∷ 255 ∷ 255 ∷ 255 ∷ 255 ∷ 255 ∷ 255
    ∷ 15 ∷ 255 ∷ 10 ∷ 17 ∷ 21 ∷ 20 ∷ 26 ∷ 30 ∷ 7 ∷ 5 ∷ 255 ∷ 255 ∷ 255 ∷ 255 ∷ 255 ∷ 255 ∷ 255 ∷ 29
    ∷ 255 ∷ 24 ∷ 13 ∷ 25 ∷ 9 ∷ 8 ∷ 23 ∷ 255 ∷ 18 ∷ 22 ∷ 31 ∷ 27 ∷ 19 ∷ 255 ∷ 1 ∷ 0 ∷ 3 ∷ 16 ∷ 11
    ∷ 28 ∷ 12 ∷ 14 ∷ 6 ∷ 4 ∷ 2 ∷ 255 ∷ 255 ∷ 255 ∷ 255 ∷ 255 ∷ 255 ∷ 29 ∷ 255 ∷ 24 ∷ 13 ∷ 25 ∷ 9 ∷ 8
    ∷ 23 ∷ 255 ∷ 18 ∷ 22 ∷ 31 ∷ 27 ∷ 19 ∷ 255 ∷ 1 ∷ 0 ∷ 3 ∷ 16 ∷ 11 ∷ 28 ∷ 12 ∷ 14 ∷ 6 ∷ 4 ∷ 2 ∷ 255
    ∷ 255 ∷ 255 ∷ 255 ∷ 255 ∷ []

-- `charset[v]` and `charset_rev[c]`. Past the end of the array C is undefined; here such a read gives
-- the terminating 0 of the first and -1 for the second.
unfoldable pub charset_at : ℕ → ℕ
charset_at v = get_or charset v 0

unfoldable pub charset_rev_at : ℕ → ℕ
charset_rev_at c = get_or charset_rev c 255

-- `lc`.
unfoldable pub lc : ℕ → ℕ
lc c = if leb b'A' c && leb c b'Z' then c - b'A' + b'a' else c
