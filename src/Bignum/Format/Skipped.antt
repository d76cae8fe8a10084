-- ===== src/Bignum/Format/Skipped.antt =====
-- A negative exponent skips the lowest digits, which is a division by a power of ten.
use aex_cpp_sdk.Base.{
  ℕ, suc, ◌+◌, ◌*◌, ◌^◌, ◌<◌, ◌≡◌, ◌⊎◌, inl, inr, refl, sym, ap, arith, List, [], Bool, false,
  pow-add, ◌==◌, Bool-cases,
}
use aex_cpp_sdk.Base.{is_negative, sucℤ, deficit, ℤ, pos, negsuc, All}
use mathlib.Core.Path.{subst}
use aex_cpp_sdk.Bignum.Format.{Printing, with_exponent, push}
use aex_cpp_sdk.Bignum.Format.Filling.{Goes, map-Goes, sign_cases}
use aex_cpp_sdk.Bignum.Format.Count.{joined-bound}
use aex_cpp_sdk.Bignum.Format.Meaning.{
  Denotes, push-Denotes, mantissa, places, digits_in, IsDecimalChar,
}

-- Nothing is printed yet.
pub record Before (first skip count : ℕ) (s : Printing) : Type 0 where
  pub fewer : count < skip
  pub missing : deficit s.exponent + count ≡ skip
  pub text : s.text ≡ []
  pub decimals : s.decimals ≡ first

-- The digits after the skipped ones make the quotient.
pub record Beyond (first skip count total : ℕ) (s : Printing) : Type 0 where
  pub more : ℕ
  pub quotient : ℕ
  pub low : ℕ
  pub split : total ≡ quotient * 10 ^ skip + low
  pub small : low < 10 ^ skip
  pub later : count ≡ more + skip
  pub denotes : Denotes first more quotient s

-- After `count` digits, which make the number `total`, of which the first `skip` are not printed.
pub record Offered (first skip count total : ℕ) (s : Printing) : Type 0 where
  pub bound : total < 10 ^ count
  pub part : Before first skip count s ⊎ Beyond first skip count total s

digit-bound :
    (count total n : ℕ) → n < 10 → total < 10 ^ count → n * 10 ^ count + total < 10 ^ suc count
digit-bound count total n digit bound =
    let e : 10 ^ (count + 1) ≡ 10 ^ suc count = ap (λ (k : ℕ). 10 ^ k) (omega arith) in
    omega (arith, joined-bound count 1 n total digit bound, e)

-- The first digit that is not skipped comes to an empty text.
empty-Denotes :
    (first : ℕ) (s : Printing)
    → s.text ≡ []
    → s.decimals ≡ first
    → is_negative s.exponent ≡ false
    → Denotes first 0 0 s
unfolding mantissa places digits_in
empty-Denotes first s t d e = record {
  zeros = 0;
  chars = subst (λ (text : List ℕ). All IsDecimalChar text) (sym t) tt;
  number = rw t refl;
  digits = rw t refl;
  before = λ some_left. omega (arith, d);
  after = λ none_left. rw t (omega (arith, d, none_left));
  nonnegative = e;
}

reached : (e : ℤ) → deficit e ≡ 0 → is_negative e ≡ false
reached (pos n) h = refl
reached (negsuc n) h = absurd (omega (arith, h))

module _ (first skip : ℕ) where
  -- Past the skipped digits, a digit is printed.
  push-Beyond :
      (count total : ℕ) (trailing : Bool) (n : ℕ) (s : Printing)
      → n < 10
      → total < 10 ^ count
      → Beyond first skip count total s
      → Goes (Offered first skip (suc count) (n * 10 ^ count + total)) (push trailing n s)
  push-Beyond count total trailing n s digit bound h =
      map-Goes (Denotes first (suc h.more) (n * 10 ^ h.more + h.quotient))
        (Offered first skip (suc count) (n * 10 ^ count + total)) (push trailing n s)
        (push-Denotes first h.more h.quotient trailing n s digit h.denotes)
        (λ s' k. record {
          bound = digit-bound count total n digit bound;
          part = inr (record {
            more = suc h.more;
            quotient = n * 10 ^ h.more + h.quotient;
            low = h.low;
            split = next_split;
            small = h.small;
            later = omega (arith, h.later);
            denotes = k;
          });
        })
    where
      next_split : n * 10 ^ count + total ≡ (n * 10 ^ h.more + h.quotient) * 10 ^ skip + h.low
      next_split =
          let power = ap (λ (k : ℕ). n * 10 ^ k) h.later in
          let product = ap (λ (k : ℕ). n * k) (pow-add 10 h.more skip) in
          omega (arith, power, product, h.split)

  -- A skipped digit.
  skipped-Offered :
      (count total n : ℕ) (s : Printing)
      → n < 10
      → total < 10 ^ count
      → Before first skip count s
      → deficit s.exponent ≡ suc (deficit (sucℤ s.exponent))
      → Offered first skip (suc count) (n * 10 ^ count + total) (with_exponent (sucℤ s.exponent) s)
  unfolding with_exponent
  skipped-Offered count total n s digit bound h d =
      let next = digit-bound count total n digit bound in
      elim (Bool-cases (suc count == skip)) [
        | inl e ↦
            let last : suc count ≡ skip = ground (arith, e) in
            let none_left : deficit (sucℤ s.exponent) ≡ 0 = omega (arith, d, h.missing, last) in
            let power = ap (λ (k : ℕ). 10 ^ k) last in
            record {
              bound = next;
              part = inr (record {
                more = 0;
                quotient = 0;
                low = n * 10 ^ count + total;
                split = omega arith;
                small = omega (arith, next, power);
                later = omega (arith, last);
                denotes =
                    empty-Denotes first (with_exponent (sucℤ s.exponent) s) h.text h.decimals
                      (reached (sucℤ s.exponent) none_left);
              });
            }
        | inr e ↦
            let fewer : suc count < skip = ground (arith, e, h.fewer) in
            record {
              bound = next;
              part = inl (record {
                fewer = fewer;
                missing = omega (arith, d, h.missing);
                text = h.text;
                decimals = h.decimals;
              });
            }
      ]

  pub push-Offered :
      (count total : ℕ) (trailing : Bool) (n : ℕ) (s : Printing)
      → n < 10
      → Offered first skip count total s
      → Goes (Offered first skip (suc count) (n * 10 ^ count + total)) (push trailing n s)
  unfolding push
  push-Offered count total trailing n s digit h = elim h.part [
    | inr p ↦ push-Beyond count total trailing n s digit h.bound p
    | inl p ↦ elim (sign_cases s.exponent) [
      | inl (e, d) ↦ rw e (skipped-Offered count total n s digit h.bound p d)
      | inr (e, d) ↦ absurd (omega (arith, d, p.missing, p.fewer))
    ]
  ]
