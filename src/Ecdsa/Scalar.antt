-- ===== src/Ecdsa/Scalar.antt =====
-- `point_multiply` and `scalar_multiply`: both write the scalar with 64 odd digits of absolute value below
-- 16.
pub mod Odd
pub mod Invariant
pub mod Returns
use aex_cpp_sdk.Base.{ℕ, zero, suc, ◌+◌, ◌-◌, ◌*◌, ◌^◌, List, [], ◌∷◌, ltb, ◌==◌, if◌then◌else◌}
use aex_cpp_sdk.Base.{get_or, u32, bit_and, bit_or, bit_xor, ◌<<◌, ◌>>◌}
use aex_cpp_sdk.Bignum.Compare.{or_limbs}
use aex_cpp_sdk.Ecdsa.Curve.{Point, Curve}
use aex_cpp_sdk.Ecdsa.Point.{infinity, point_add, point_double}
use aex_cpp_sdk.Ecdsa.Jacobian.{
  Jacobian, Random, ◌>>=◌, pure, conditional_negate, curve_to_jacobian, jacobian_to_curve,
}
use aex_cpp_sdk.Ecdsa.Jacobian.{point_jacobian_add, point_jacobian_double}

-- `x - 1` in `uint32_t`.
abbrev pub pred32 : ℕ → ℕ
pred32 x = u32 (x + (2 ^ 32 - 1))

-- The limbs of `a` from a carry `tmp`: `k + 2^256`, less the order if `is_even` is all ones.
unfoldable pub odd_loop : ℕ → ℕ → List ℕ → List ℕ → List ℕ
odd_loop is_even tmp [] os = []
odd_loop is_even tmp (k ∷ ks) [] = []
odd_loop is_even tmp (k ∷ []) (o ∷ os) = u32 (tmp + (0xffff + k + 2 ^ 32 - bit_and o is_even)) ∷ []
odd_loop is_even tmp (k ∷ k' ∷ ks) (o ∷ os) =
    let t = u32 (tmp + (0x3fffffff + k + 2 ^ 32 - bit_and o is_even)) in
    bit_and t 0x3fffffff ∷ odd_loop is_even (t >> 30) (k' ∷ ks) os

unfoldable pub make_odd : Curve → List ℕ → List ℕ
make_odd curve k = odd_loop (pred32 (bit_and (get_or k 0 0) 1)) 1 k curve.order

-- The sign mask of five bits, and the absolute value of the digit.
unfoldable pub sign_mask : ℕ → ℕ
sign_mask bits = pred32 (bits >> 4)

unfoldable pub digit : ℕ → ℕ
digit bits = bit_and (bit_xor bits (sign_mask bits)) 15

-- `pmult[i] = (2 i + 1) p`, from an entry on, for `p2 = 2 p`.
unfoldable pub multiples : Curve → Point → ℕ → Point → List Point
multiples curve p2 zero entry = entry ∷ []
multiples curve p2 (suc n) entry = entry ∷ multiples curve p2 n (point_add curve entry p2)

-- The locals of the loop of `point_multiply`; `aptr` is an index.
pub record Digits : Type 0 where
  pub aptr : ℕ
  pub abits : ℕ
  pub ashift : ℕ
  pub sign : ℕ
  pub jres : Jacobian

-- The five bits of a round, and `aptr`, `abits` and `ashift` after it.
unfoldable pub next_bits : List ℕ → Digits → ℕ × ℕ × ℕ × ℕ
next_bits a s =
    let abits = get_or a (s.aptr - 1) 0 in
    let ashift = s.ashift + 30 - 4 in
    let bits = bit_and (bit_or (u32 (s.abits << (4 - s.ashift))) (abits >> ashift)) 31 in
    if ltb s.ashift 4
    then (bits, s.aptr - 1, abits, ashift)
    else (bit_and (s.abits >> (s.ashift - 4)) 31, s.aptr, s.abits, s.ashift - 4)

unfoldable pub multiply_round : Curve → List ℕ → List Point → Digits → Digits
multiply_round curve a pmult s =
    let j1 = point_jacobian_double s.jres curve in
    let j2 = point_jacobian_double j1 curve in
    let j3 = point_jacobian_double j2 curve in
    let j4 = point_jacobian_double j3 curve in
    let (bits, aptr, abits, ashift) = next_bits a s in
    let nsign = sign_mask bits in
    let negated : Jacobian = record {
      x = j4.x;
      y = j4.y;
      z = conditional_negate (bit_xor s.sign nsign) j4.z curve.prime;
    } in
    record {
      aptr = aptr;
      abits = abits;
      ashift = ashift;
      sign = nsign;
      jres = point_jacobian_add (get_or pmult (digit bits >> 1) infinity) negated curve;
    }

unfoldable pub multiply_loop : ℕ → Curve → List ℕ → List Point → Digits → Digits
multiply_loop zero curve a pmult s = s
multiply_loop (suc left) curve a pmult s =
    multiply_loop left curve a pmult (multiply_round curve a pmult s)

-- The rounds and the conversion back, from the first digit's multiple.
unfoldable pub multiply_from : Curve → List ℕ → List Point → ℕ → Jacobian → Point
multiply_from curve a pmult bits start =
    let s = multiply_loop 63 curve a pmult (record {
      aptr = 8;
      abits = get_or a 8 0;
      ashift = 12;
      sign = sign_mask bits;
      jres = start;
    }) in
    jacobian_to_curve
      (record { x = s.jres.x; y = s.jres.y; z = conditional_negate s.sign s.jres.z curve.prime })
      curve.prime

-- `point_multiply`.
unfoldable pub point_multiply : Curve → List ℕ → Point → Random Point
point_multiply curve k p =
    let a = make_odd curve k in
    let pmult = multiples curve (point_double curve p) 7 p in
    let bits = get_or a 8 0 >> 12 in
    let first = curve_to_jacobian (get_or pmult (digit bits >> 1) infinity) curve.prime in
    let run = first >>= λ start. pure (multiply_from curve a pmult bits start) in
    if or_limbs 0 k == 0 then pure infinity else run

-- The shift of `a` by four places.
unfoldable pub shift_four : List ℕ → List ℕ
shift_four [] = []
shift_four (a ∷ []) = (a >> 4) ∷ []
shift_four (a ∷ b ∷ us) = bit_or (a >> 4) (u32 (bit_and b 0xf << 26)) ∷ shift_four (b ∷ us)

-- The rounds of `scalar_multiply` from `i` on: the last `a` and `jres`.
unfoldable pub scalar_loop : ℕ → ℕ → Curve → List ℕ → Jacobian → List ℕ × Jacobian
scalar_loop zero i curve a jres = (a, jres)
scalar_loop (suc left) i curve a jres =
    let a' = shift_four a in
    let lowbits = digit (bit_and (get_or a' 0 0) 31) in
    let negated : Jacobian = record {
      x = jres.x;
      y = conditional_negate (pred32 (bit_and lowbits 1)) jres.y curve.prime;
      z = jres.z;
    } in
    scalar_loop left (i + 1) curve a' (point_jacobian_add (curve.cp i (lowbits >> 1)) negated curve)

unfoldable pub scalar_from : Curve → List ℕ → Jacobian → Point
scalar_from curve a start =
    let (a', jres) = scalar_loop 63 1 curve a start in
    let mask = pred32 (bit_and (get_or a' 0 0 >> 4) 1) in
    jacobian_to_curve
      (record { x = jres.x; y = conditional_negate mask jres.y curve.prime; z = jres.z })
      curve.prime

-- `scalar_multiply`.
unfoldable pub scalar_multiply : Curve → List ℕ → Random Point
scalar_multiply curve k =
    let a = make_odd curve k in
    let lowbits = digit (bit_and (get_or a 0 0) 31) in
    let first = curve_to_jacobian (curve.cp 0 (lowbits >> 1)) curve.prime in
    let run = first >>= λ start. pure (scalar_from curve a start) in
    if or_limbs 0 k == 0 then pure infinity else run
