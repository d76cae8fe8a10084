-- ===== src/Bignum/Multiply.antt =====
-- Multiplication modulo a prime: the long product of 18 limbs and its reduction.
pub mod Long
pub mod Step
pub mod Product
use aex_cpp_sdk.Base.{ℕ, zero, suc, ◌+◌, ◌-◌, ◌*◌, List, [], ◌∷◌, ◌++◌, get_or, take, drop, ltb}
use aex_cpp_sdk.Base.{if◌then◌else◌, u32, u64, bit_and, ◌<<◌, ◌>>◌}
use aex_cpp_sdk.Bignum.Reduce.{submul}

-- `temp += k->val[j] * (uint64_t)x->val[i - j]`, for `n` values of `j`.
unfoldable pub column : List ℕ → List ℕ → ℕ → ℕ → ℕ → ℕ → ℕ
column k x i j zero temp = temp
column k x i j (suc n) temp =
    column k x i (j + 1) n (u64 (temp + get_or k j 0 * get_or x (i - j) 0))

-- The two loops of `bn_multiply_long`: `j` runs from 0 to `i` in the lower half, from `i - 8` to 8 in
-- the upper. The last limb is what `temp` holds at the end.
unfoldable pub long_loop : List ℕ → List ℕ → ℕ → ℕ → ℕ → List ℕ
long_loop k x zero i temp = u32 temp ∷ []
long_loop k x (suc left) i temp =
    let t = if ltb i 9 then column k x i 0 (i + 1) temp else column k x i (i - 8) (17 - i) temp in
    bit_and t 0x3FFFFFFF ∷ long_loop k x left (i + 1) (t >> 30)

-- `bn_multiply_long`.
unfoldable pub bn_multiply_long : List ℕ → List ℕ → List ℕ
bn_multiply_long k x = long_loop k x 17 0 0

-- `bn_multiply_reduce_step`: limbs `i - 8` to `i` lose `coef * prime`, and limb `i + 1` the carry. The
-- assertion is that `coef` is below `2^31`.
unfoldable pub bn_multiply_reduce_step : List ℕ → List ℕ → ℕ → List ℕ
bn_multiply_reduce_step res prime i =
    let coef = u32 ((get_or res i 0 >> 16) + u32 (get_or res (i + 1) 0 << 14)) in
    let (window, temp) = submul coef (take 9 (drop (i - 8) res)) prime in
    let last = u64 ((temp >> 30) + (0x1FFFFFFF80000000 + get_or res (i + 1) 0)) in
    take (i - 8) res ++ (window ++ (bit_and last 0x3FFFFFFF ∷ drop (i + 2) res))

-- The loop of `bn_multiply_reduce`, with `i` from `n + 7` down to 8.
unfoldable pub reduce_loop : ℕ → List ℕ → List ℕ → List ℕ
reduce_loop zero res prime = res
reduce_loop (suc n) res prime = reduce_loop n (bn_multiply_reduce_step res prime (n + 8)) prime

-- `bn_multiply_reduce`.
unfoldable pub bn_multiply_reduce : List ℕ → List ℕ → List ℕ
bn_multiply_reduce res prime = take 9 (reduce_loop 9 res prime)

-- `bn_multiply`: the new value of `x`.
unfoldable pub bn_multiply : List ℕ → List ℕ → List ℕ → List ℕ
bn_multiply k x prime = bn_multiply_reduce (bn_multiply_long k x) prime
