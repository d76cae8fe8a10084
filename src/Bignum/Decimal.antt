-- ===== src/Bignum/Decimal.antt =====
-- Division by small numbers, and counts of digits.
pub mod Division
use aex_cpp_sdk.Base.{ℕ, zero, suc, ◌+◌, ◌-◌, ◌*◌, ◌/◌, ◌%◌, List, [], ◌∷◌, ◌==◌, leb, get_or}
use aex_cpp_sdk.Base.{if◌then◌else◌, u32}

-- The loop of `bn_divmod58` and `bn_divmod1000`: quotient limbs and remainder, for
-- `2^30 = whole * d + part`.
unfoldable pub divmod_loop : ℕ → ℕ → ℕ → List ℕ → List ℕ × ℕ
divmod_loop d whole part [] = ([], 0)
divmod_loop d whole part (a ∷ []) = (a / d ∷ [], a % d)
divmod_loop d whole part (a ∷ b ∷ us) =
    let (quotient, rem) = divmod_loop d whole part (b ∷ us) in
    let tmp = u32 (u32 (rem * part) + a) in (u32 (u32 (rem * whole) + tmp / d) ∷ quotient, tmp % d)

-- `bn_divmod58` and `bn_divmod1000`.
unfoldable pub bn_divmod58 : List ℕ → List ℕ × ℕ
bn_divmod58 a = divmod_loop 58 18512790 4 a

unfoldable pub bn_divmod1000 : List ℕ → List ℕ × ℕ
bn_divmod1000 a = divmod_loop 1000 1073741 824 a

-- The loop of `bn_digitcount`, three digits to a round.
unfoldable pub digitcount_loop : ℕ → ℕ → List ℕ → ℕ → ℕ
digitcount_loop zero i val digits = digits
digitcount_loop (suc left) i val digits =
    let (quotient, limb) = bn_divmod1000 val in
    digitcount_loop left (i + 3) quotient (
      if leb 100 limb
      then i + 3
      else if leb 10 limb
      then i + 2
      else if leb 1 limb
      then i + 1
      else digits)

-- `bn_digitcount`: 26 rounds reach `DIGITS`, 78.
unfoldable pub bn_digitcount : List ℕ → ℕ
bn_digitcount a = digitcount_loop 26 0 a 1

-- `32 - __builtin_clz(tmp)`, the number of binary digits, for a word.
unfoldable pub bit_length : ℕ → ℕ → ℕ
bit_length zero x = 0
bit_length (suc n) x = let rest = bit_length n (x / 2) in if x == 0 then 0 else suc rest

-- The loop of `bn_bitcount` on the limbs below the `n`-th, from the highest.
unfoldable pub bitcount_loop : ℕ → List ℕ → ℕ
bitcount_loop zero a = 0
bitcount_loop (suc n) a =
    let rest = bitcount_loop n a in
    let tmp = get_or a n 0 in if tmp == 0 then rest else n * 30 + bit_length 32 tmp

-- `bn_bitcount`.
unfoldable pub bn_bitcount : List ℕ → ℕ
bn_bitcount a = bitcount_loop 9 a
