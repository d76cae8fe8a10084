-- ===== src/Bignum/Multiply/Product.antt =====
-- `bn_multiply_reduce` and `bn_multiply`: the product modulo a prime.
use aex_cpp_sdk.Base.{ℕ, zero, suc, ◌+◌, ◌-◌, ◌*◌, ◌%◌, ◌^◌, ◌≤◌, ◌<◌, ◌≡◌, sym, ap, ap₂, ◌∙◌}
use aex_cpp_sdk.Base.{arith, List, [], ◌∷◌, ◌++◌, length, get_or, take, drop, All-get_or}
use aex_cpp_sdk.Base.{
  append_assoc, take-length-append, take-snoc, length-take, length-drop, take-append-drop,
}
use mathlib.Core.Path.{subst}
use native.Mathlib.Nat.{add-mul-mod_self_right}
use aex_cpp_sdk.Bignum.Value.{AtMost, IsPartly, value, radix, IsNormal, IsBignum}
use aex_cpp_sdk.Bignum.Reduce.FastMod.{IsPrimeSize}
use aex_cpp_sdk.Bignum.Multiply.Step.{estimate, window, window-value, step_lem}
use aex_cpp_sdk.Bignum.Multiply.Long.{bn_multiply_long-value}
use aex_cpp_sdk.Bignum.Multiply.{bn_multiply_reduce_step, reduce_loop, bn_multiply_reduce}
use aex_cpp_sdk.Bignum.Multiply.{bn_multiply_long, bn_multiply}

-- A partly reduced number that differs from a total by a multiple of the prime.
pub record Reduced (out prime : List ℕ) (total : ℕ) : Type 0 where
  pub bignum : IsBignum out
  pub partly : value out < 2 * value prime
  pub quotient : ℕ
  pub exact : value out + quotient * value prime ≡ total

value-append : (xs ys : List ℕ) → value (xs ++ ys) ≡ value xs + radix (length xs) * value ys
value-append [] ys = omega arith
value-append (x ∷ xs) ys = grind (arith, value-append xs ys)

All-take : (n : ℕ) (xs : List ℕ) → IsNormal xs → IsNormal (take n xs)
All-take zero xs h = tt
All-take (suc n) [] h = tt
All-take (suc n) (x ∷ xs) (h, hs) = (h, All-take n xs hs)

All-drop : (n : ℕ) (xs : List ℕ) → IsNormal xs → IsNormal (drop n xs)
All-drop zero xs h = h
All-drop (suc n) [] h = tt
All-drop (suc n) (x ∷ xs) (h, hs) = All-drop n xs hs

-- A list of limbs and the one above them.
value-snoc :
    (n : ℕ) (xs : List ℕ)
    → length xs ≡ suc n
    → value (take n xs) + radix n * get_or xs n 0 ≡ value xs
value-snoc n xs h =
    let size : length (take n xs) ≡ n = length-take n xs ∙ omega arith in
    let e = ap value (take-snoc n xs 0 h) in
    omega (
      arith,
      e,
      value-append (take n xs) (get_or xs n 0 ∷ []),
      ap (λ (m : ℕ). radix m * (get_or xs n 0 + 2 ^ 30 * 0)) size,
    )

-- The totals before and after a round.
totals :
    (r out c p top x q low l all t : ℕ)
    → out + c * p ≡ top
    → x + q * p ≡ low + r * t
    → t ≡ l + 2 ^ 30 * out
    → low + r * l ≡ all
    → x + (q + 2 ^ 30 * r * c) * p ≡ all + 2 ^ 30 * r * top
totals r out c p top x q low l all t a b d e =
    grind (arith, ap (λ (s : ℕ). 2 ^ 30 * r * s) a, ap (λ (s : ℕ). r * s) d)

module _ (prime : List ℕ) (v : IsPrimeSize prime) where
  loop-Reduced :
      (n : ℕ) (lo us rest : List ℕ) (h : ℕ)
      → length lo ≡ n
      → IsNormal lo
      → IsBignum us
      → value us + 2 ^ 270 * h < 2 ^ 31 * value prime
      → Reduced
          (take 9 (reduce_loop (suc n) (lo ++ (us ++ (h ∷ rest))) prime))
          prime
          (value lo + radix n * (value us + 2 ^ 270 * h))
  unfolding reduce_loop
  loop-Reduced zero (x ∷ lo) us rest h n normal p fits = absurd (omega arith)
  loop-Reduced zero [] us rest h n normal p fits =
      let w = window-value us h prime p v fits in
      let out = window us h prime p v fits in
      let e : take 9 (bn_multiply_reduce_step (us ++ (h ∷ rest)) prime 8) ≡ out =
        ap (take 9) (step_lem us h prime p v fits [] rest)
        ∙ ap (λ (m : ℕ). take m (out ++ (0 ∷ rest))) (sym w.0.limbs)
        ∙ take-length-append out (0 ∷ rest) in
      rw e (record {
        bignum = w.0;
        partly = w.2;
        quotient = estimate us h;
        exact = omega (arith, w.1);
      })
  loop-Reduced (suc n) lo us rest h size normal p fits =
      let w = window-value us h prime p v fits in
      let out = window us h prime p v fits in
      let l = get_or lo n 0 in
      let g = get_or out 8 0 in
      let lower : length (take n lo) ≡ n = length-take n lo ∙ omega arith in
      let eight : length (take 8 out) ≡ 8 = length-take 8 out ∙ omega (arith, w.0.limbs) in
      let us' : List ℕ = l ∷ take 8 out in
      let limb : l < 2 ^ 30 = All-get_or (λ (u : ℕ). u < 2 ^ 30) lo n 0 (omega arith) normal in
      let p' : IsBignum us' = record {
        limbs = ap suc eight;
        normal = (limb, All-take 8 out w.0.normal);
      } in
      let total : value us' + 2 ^ 270 * g ≡ l + 2 ^ 30 * value out =
        omega (arith, value-snoc 8 out w.0.limbs) in
      let rest_of =
        loop-Reduced n (take n lo) us' (0 ∷ rest) g lower (All-take n lo normal) p'
          (omega (arith, total, w.2, limb)) in
      let step : bn_multiply_reduce_step (lo ++ (us ++ (h ∷ rest))) prime (suc n + 8)
          ≡ take n lo ++ (us' ++ (g ∷ 0 ∷ rest)) =
        let count : suc n + 8 ≡ length lo + 8 = omega arith in
        ap (bn_multiply_reduce_step (lo ++ (us ++ (h ∷ rest))) prime) count
        ∙ step_lem us h prime p v fits lo rest
        ∙ ap₂ (λ (a b : List ℕ). a ++ (b ++ (0 ∷ rest))) (sym (take-snoc n lo 0 size))
            (sym (take-snoc 8 out 0 w.0.limbs))
        ∙ append_assoc (take n lo) (l ∷ []) ((take 8 out ++ (g ∷ [])) ++ (0 ∷ rest))
        ∙ ap (λ (t : List ℕ). take n lo ++ (l ∷ t))
            (append_assoc (take 8 out) (g ∷ []) (0 ∷ rest)) in
      rw step (record {
        bignum = rest_of.bignum;
        partly = rest_of.partly;
        quotient = rest_of.quotient + radix (suc n) * estimate us h;
        exact =
            totals (radix n) (value out) (estimate us h) (value prime) (value us + 2 ^ 270 * h) _
              rest_of.quotient (value (take n lo)) l (value lo) (value us' + 2 ^ 270 * g) w.1
              rest_of.exact total (value-snoc n lo size);
      })

  -- The whole reduction of 18 limbs.
  pub bn_multiply_reduce-Reduced :
      (res : List ℕ)
      → length res ≡ 18
      → IsNormal res
      → value res < 2 ^ 271 * value prime
      → Reduced (bn_multiply_reduce res prime) prime (value res)
  unfolding bn_multiply_reduce
  bn_multiply_reduce-Reduced res size normal fits =
      let high = drop 8 res in
      let ten : length high ≡ 10 = length-drop 8 res ∙ omega arith in
      let eight : length (take 8 res) ≡ 8 = length-take 8 res ∙ omega arith in
      let nine : length (take 9 high) ≡ 9 = length-take 9 high ∙ omega arith in
      let us = take 9 high in
      let g = get_or high 9 0 in
      let whole : take 8 res ++ (us ++ (g ∷ [])) ≡ res =
        ap (λ (t : List ℕ). take 8 res ++ t) (take-snoc 9 high 0 ten) ∙ take-append-drop 8 res in
      let top : value us + 2 ^ 270 * g ≡ value high = value-snoc 9 high ten in
      let total : value (take 8 res) + 2 ^ 240 * (value us + 2 ^ 270 * g) ≡ value res = omega (
        arith,
        top,
        ap value (take-append-drop 8 res),
        value-append (take 8 res) high,
        ap (λ (m : ℕ). radix m * value high) eight,
      ) in
      let p : IsBignum us = record {
        limbs = nine;
        normal = All-take 9 high (All-drop 8 res normal);
      } in
      let r =
        loop-Reduced 8 (take 8 res) us [] g eight (All-take 8 res normal) p
          (omega (arith, total)) in
      let r' : Reduced (take 9 (reduce_loop 9 res prime)) prime
          (value (take 8 res) + 2 ^ 240 * (value us + 2 ^ 270 * g)) =
        subst
          (λ (t : List ℕ).
            Reduced (take 9 (reduce_loop 9 t prime)) prime
              (value (take 8 res) + 2 ^ 240 * (value us + 2 ^ 270 * g)))
          whole r in
      record {
        bignum = r'.bignum;
        partly = r'.partly;
        quotient = r'.quotient;
        exact = r'.exact ∙ total;
      }

-- `bn_multiply` of normalized numbers whose product is below `2^271` times the prime, which is
-- between `2^256 - 2^224` and `2^256`, is a normalized number less than twice the prime, with the
-- residue of the product.
pub bn_multiply_lem :
    (k x prime : List ℕ)
    → IsBignum k
    → IsBignum x
    → IsPrimeSize prime
    → value k * value x < 2 ^ 271 * value prime
    → IsBignum (bn_multiply k x prime)
      × (value (bn_multiply k x prime) < 2 * value prime)
      × (value (bn_multiply k x prime) % value prime ≡ value k * value x % value prime)
unfolding bn_multiply
bn_multiply_lem k x prime p q v fits =
    let long = bn_multiply_long-value k x p q in
    let r =
      bn_multiply_reduce-Reduced prime v (bn_multiply_long k x) long.2 long.1
        (omega (arith, long.0)) in
    (
      r.bignum,
      r.partly,
      sym (add-mul-mod_self_right (value (bn_multiply k x prime)) r.quotient (value prime))
          ∙ ap (λ (t : ℕ). t % value prime) (r.exact ∙ long.0),
    )

module _ (prime : List ℕ) (v : IsPrimeSize prime) where
  fits :
      (a b m : ℕ)
      → m < 2 ^ 256
      → 2 ^ 256 - 2 ^ 224 < m
      → a ≤ 8 * m
      → b ≤ 8 * m
      → a * b < 2 ^ 271 * m
  fits a b m h h' p q = let c : a * b ≤ 2 ^ 259 * b = grind arith in omega arith

  -- The product of numbers of at most eight times the prime.
  pub bn_multiply_bounded :
      (a b : List ℕ)
      → AtMost 8 prime a
      → AtMost 8 prime b
      → IsPartly prime (bn_multiply a b prime)
        × (value (bn_multiply a b prime) % value prime ≡ value a * value b % value prime)
  bn_multiply_bounded a b p q =
      let m =
        bn_multiply_lem a b prime p.bignum q.bignum v
          (fits (value a) (value b) (value prime) v.below v.above p.bound q.bound) in
      (record { bignum = m.0; partly = m.1 }, m.2)
