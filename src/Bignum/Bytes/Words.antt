-- ===== src/Bignum/Bytes/Words.antt =====
-- Words and their four bytes.
use aex_cpp_sdk.Base.{ℕ, ◌+◌, ◌*◌, ◌/◌, ◌%◌, ◌^◌, ◌≡◌, refl, ◌∙◌}
use aex_cpp_sdk.Base.{arith, List, ◌∷◌, IsByte, IsU32, bit_or, bit_or-parts, u32, ◌<<◌}
use aex_cpp_sdk.Bignum.Bytes.{read_be, read_le, write_be, write_le}

-- Four bytes side by side.
pub join :
    (a b c d : ℕ)
    → IsByte a
    → IsByte b
    → IsByte c
    → IsByte d
    → bit_or (bit_or (bit_or (u32 (a << 24)) (u32 (b << 16))) (u32 (c << 8))) d
      ≡ ((a * 256 + b) * 256 + c) * 256 + d
join a b c d ha hb hc hd =
    bit_or-parts 8 ((a * 256 + b) * 256 + c) d
      (bit_or-parts 16 (a * 256 + b) (c * 2 ^ 8)
          (bit_or-parts 24 a (b * 2 ^ 16) (omega arith) (omega arith) (omega arith) ∙ omega arith)
          (omega arith) (omega arith)
        ∙ omega arith)
      refl hd
    ∙ omega arith

-- A word is read from the bytes that were written, in both byte orders.
pub read_be-write_be : (x : ℕ) → IsU32 x → read_be (write_be x) ≡ x
unfolding read_be write_be
read_be-write_be x h =
    join (x / 2 ^ 24 % 256) (x / 2 ^ 16 % 256) (x / 2 ^ 8 % 256) (x % 256) (omega arith)
      (omega arith) (omega arith) (omega arith)
    ∙ omega arith

pub read_le-write_le : (x : ℕ) → IsU32 x → read_le (write_le x) ≡ x
unfolding read_le write_le
read_le-write_le x h =
    join (x / 2 ^ 24 % 256) (x / 2 ^ 16 % 256) (x / 2 ^ 8 % 256) (x % 256) (omega arith)
      (omega arith) (omega arith) (omega arith)
    ∙ omega arith

-- `read_be` is the value of four bytes in base 256.
pub read_be-value :
    (a b c d : ℕ) (rest : List ℕ)
    → IsByte a
    → IsByte b
    → IsByte c
    → IsByte d
    → read_be (a ∷ b ∷ c ∷ d ∷ rest) ≡ ((a * 256 + b) * 256 + c) * 256 + d
unfolding read_be
read_be-value a b c d rest ha hb hc hd = join a b c d ha hb hc hd
