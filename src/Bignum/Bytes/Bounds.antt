-- ===== src/Bignum/Bytes/Bounds.antt =====
-- Bytes are read into normalized numbers below `2^256`.
use aex_cpp_sdk.Base.{◌≡◌, refl, length}
use aex_cpp_sdk.Bignum.Bytes.{write_be, write_loop, words_be, bn_write_be}
use aex_cpp_sdk.Base.{
  ℕ, zero, suc, ◌-◌, ◌*◌, ◌^◌, ◌<◌, arith, List, [], ◌∷◌, All, get_or, drop, IsByte, IsU32,
}
use aex_cpp_sdk.Bignum.Value.{value, IsBignum}
use aex_cpp_sdk.Bignum.Bytes.{read_be, bn_read_be}
use aex_cpp_sdk.Bignum.Bytes.Words.{join}
use aex_cpp_sdk.Bignum.Bytes.Read.{read_words}

get_or-IsByte : (bytes : List ℕ) (i : ℕ) → All IsByte bytes → IsByte (get_or bytes i 0)
get_or-IsByte [] i h = omega arith
get_or-IsByte (b ∷ bytes) zero (h, hs) = h
get_or-IsByte (b ∷ bytes) (suc i) (h, hs) = get_or-IsByte bytes i hs

pub bytes_from : (n : ℕ) (bytes : List ℕ) → All IsByte bytes → All IsByte (drop n bytes)
bytes_from zero bytes h = h
bytes_from (suc n) [] h = h
bytes_from (suc n) (b ∷ bytes) (h, hs) = bytes_from n bytes hs

read_be-IsU32 : (bytes : List ℕ) → All IsByte bytes → IsU32 (read_be bytes)
unfolding read_be
read_be-IsU32 bytes h =
    let a = get_or-IsByte bytes 0 h in
    let b = get_or-IsByte bytes 1 h in
    let c = get_or-IsByte bytes 2 h in
    let d = get_or-IsByte bytes 3 h in
    omega (
      arith,
      join (get_or bytes 0 0) (get_or bytes 1 0) (get_or bytes 2 0) (get_or bytes 3 0) a b c d,
    )

-- `bn_read_be` of bytes is a normalized number below `2^256`.
pub bn_read_be-bound :
    (bytes : List ℕ)
    → All IsByte bytes
    → IsBignum (bn_read_be bytes) × (value (bn_read_be bytes) < 2 ^ 256)
unfolding bn_read_be
bn_read_be-bound bytes h =
    let r = read_words word small in
    (
      r.0,
      omega (arith, r.1, small 0, small 1, small 2, small 3, small 4, small 5, small 6, small 7),
    )
  where
    word : ℕ → ℕ
    word i = read_be (drop ((7 - i) * 4) bytes)

    small : (i : ℕ) → IsU32 (word i)
    small i = read_be-IsU32 (drop ((7 - i) * 4) bytes) (bytes_from ((7 - i) * 4) bytes h)

pub length-bn_write_be : (a : List ℕ) → length (bn_write_be a) ≡ 32
unfolding bn_write_be words_be write_loop write_be
length-bn_write_be a = refl

words_be-IsByte : (ws : List ℕ) → All IsByte (words_be ws)
unfolding words_be write_be
words_be-IsByte [] = tt
words_be-IsByte (w ∷ ws) =
    (omega arith, (omega arith, (omega arith, (omega arith, words_be-IsByte ws))))

pub bn_write_be-IsByte : (a : List ℕ) → All IsByte (bn_write_be a)
unfolding bn_write_be
bn_write_be-IsByte a = words_be-IsByte (write_loop a 8 0 (get_or a 8 0))
