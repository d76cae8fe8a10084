-- ===== src/Bignum/Format/Number.antt =====
-- The loops of `bn_format` push the digits of the number.
use aex_cpp_sdk.Base.{
  ℕ, zero, suc, ◌+◌, ◌*◌, ◌%◌, ◌/◌, ◌^◌, ◌<◌, ◌≡◌, refl, sym, ap, ◌∙◌, arith, List, Bool, pow-add,
}
use aex_cpp_sdk.Base.{pos}
use mathlib.Core.Path.{subst}
use aex_cpp_sdk.Bignum.Value.{value, IsBignum}
use aex_cpp_sdk.Bignum.Decimal.{bn_divmod1000}
use aex_cpp_sdk.Bignum.Decimal.Division.{bn_divmod_lem}
use aex_cpp_sdk.Bignum.Format.{Printing, with_exponent, push, zeros_loop, push_limb, digits_loop}
use aex_cpp_sdk.Bignum.Format.Filling.{Goes, bind-Goes}
use aex_cpp_sdk.Bignum.Format.Meaning.{Denotes, push-Denotes}
use aex_cpp_sdk.Bignum.Format.Skipped.{Offered, push-Offered}

module _ (first : ℕ) where
  pub zeros_loop-Denotes :
      (trailing : Bool) (left count : ℕ) (s : Printing)
      → Denotes first count 0 s
      → Goes (Denotes first (count + left) 0) (zeros_loop trailing left s)
  unfolding zeros_loop with_exponent
  zeros_loop-Denotes trailing zero count s h =
      subst (λ (k : ℕ). Denotes first k 0 s) (omega arith) h
  zeros_loop-Denotes trailing (suc left) count s h =
      bind-Goes (Denotes first (suc count) (0 * 10 ^ count + 0))
        (Denotes first (count + suc left) 0) (push trailing 0 s) _
        (push-Denotes first count 0 trailing 0 s (omega arith) h)
        (λ s' k.
          subst
            (λ (n : ℕ).
              Goes (Denotes first n 0) (zeros_loop trailing left (with_exponent (pos left) s')))
            (omega arith)
            (zeros_loop-Denotes trailing left (suc count) (with_exponent (pos left) s') (record {
              zeros = k.zeros;
              chars = k.chars;
              number = sym (omega arith) ∙ k.number;
              digits = k.digits;
              before = k.before;
              after = k.after;
              nonnegative = refl;
            })))

module _ (first skip : ℕ) where
  pub same_numbers :
      (count total count' total' : ℕ) (s : Printing)
      → count' ≡ count
      → total' ≡ total
      → Offered first skip count total s
      → Offered first skip count' total' s
  same_numbers count total count' total' s c t h =
      subst (λ (k : ℕ). Offered first skip k total' s) (sym c)
        (subst (λ (k : ℕ). Offered first skip count k s) (sym t) h)

  push_limb-Offered :
      (trailing : Bool) (left limb count total count' total' : ℕ) (s : Printing)
      → limb < 10 ^ left
      → count' ≡ count + left
      → total' ≡ limb * 10 ^ count + total
      → Offered first skip count total s
      → Goes (Offered first skip count' total') (push_limb trailing left limb s)
  unfolding push_limb
  push_limb-Offered trailing zero limb count total count' total' s small c t h =
      let none_left : limb ≡ 0 = omega (arith, small) in
      let product = ap (λ (k : ℕ). k * 10 ^ count) none_left in
      same_numbers count total count' total' s (omega (arith, c)) (omega (arith, t, product)) h
  push_limb-Offered trailing (suc left) limb count total count' total' s small c t h =
      let low = limb % 10 in
      let total1 = low * 10 ^ count + total in
      let split : limb ≡ limb / 10 * 10 + low = omega arith in
      let scaled = ap (λ (k : ℕ). k * 10 ^ count) split in
      let ten : 10 ^ suc count ≡ 10 * 10 ^ count = omega arith in
      let product = ap (λ (k : ℕ). limb / 10 * k) ten in
      bind-Goes (Offered first skip (suc count) total1) (Offered first skip count' total')
        (push trailing low s) _ (push-Offered first skip count total trailing low s (omega arith) h)
        (λ s' k.
          push_limb-Offered trailing left (limb / 10) (suc count) total1 count' total' s'
            (omega (arith, small)) (omega (arith, c)) (omega (arith, t, scaled, product)) k)

  -- The digits that are left after the groups of three.
  last_digits-Offered :
      (trailing : Bool) (last count total count' total' : ℕ) (val : List ℕ) (s : Printing)
      → IsBignum val
      → last < 3
      → value val < 10 ^ last
      → count' ≡ count + last
      → total' ≡ value val * 10 ^ count + total
      → Offered first skip count total s
      → Goes (Offered first skip count' total') (digits_loop trailing last 0 val s)
  unfolding digits_loop
  last_digits-Offered trailing zero count total count' total' val s p few small c t h =
      let none_left : value val ≡ 0 = omega (arith, small) in
      let product = ap (λ (k : ℕ). k * 10 ^ count) none_left in
      same_numbers count total count' total' s (omega (arith, c)) (omega (arith, t, product)) h
  last_digits-Offered trailing (suc zero) count total count' total' val s p few small c t h =
      let limb : (bn_divmod1000 val).1 ≡ value val =
        omega (arith, (bn_divmod_lem val p).1.2, small) in
      push_limb-Offered trailing 1 (bn_divmod1000 val).1 count total count' total' s
        (omega (arith, limb, small)) c (t ∙ ap (λ (k : ℕ). k * 10 ^ count + total) (sym limb)) h
  last_digits-Offered trailing (suc (suc zero)) count total count' total' val s p few small c t h =
      let limb : (bn_divmod1000 val).1 ≡ value val =
        omega (arith, (bn_divmod_lem val p).1.2, small) in
      push_limb-Offered trailing 2 (bn_divmod1000 val).1 count total count' total' s
        (omega (arith, limb, small)) c (t ∙ ap (λ (k : ℕ). k * 10 ^ count + total) (sym limb)) h
  last_digits-Offered trailing (suc (suc (suc n))) count total count' total' val s p few small c t
        h =
      absurd (omega (arith, few))

  pub digits_loop-Offered :
      (trailing : Bool) (last left count total count' total' : ℕ) (val : List ℕ) (s : Printing)
      → IsBignum val
      → last < 3
      → value val < 10 ^ (3 * left + last)
      → count' ≡ count + (3 * left + last)
      → total' ≡ value val * 10 ^ count + total
      → Offered first skip count total s
      → Goes (Offered first skip count' total') (digits_loop trailing last left val s)
  unfolding digits_loop
  digits_loop-Offered trailing last zero count total count' total' val s p few small c t h =
      let rounds : 3 * 0 + last ≡ last = omega arith in
      last_digits-Offered trailing last count total count' total' val s p few
        (subst (λ (k : ℕ). value val < 10 ^ k) rounds small) (omega (arith, c)) t h
  digits_loop-Offered trailing last (suc left) count total count' total' val s p few small c t h =
      let d = (bn_divmod_lem val p).1 in
      let q = (bn_divmod1000 val).0 in
      let limb = (bn_divmod1000 val).1 in
      let rounds : 3 * suc left + last ≡ 3 * left + last + 3 = omega arith in
      let bound : value val < 10 ^ (3 * left + last + 3) =
        subst (λ (k : ℕ). value val < 10 ^ k) rounds small in
      let split : value val ≡ value q * 1000 + limb = omega (arith, d.1, d.2) in
      let scaled = ap (λ (k : ℕ). k * 10 ^ count) split in
      let product = ap (λ (k : ℕ). value q * k) (pow-add 10 count 3) in
      let total1 = limb * 10 ^ count + total in
      bind-Goes (Offered first skip (count + 3) total1) (Offered first skip count' total')
        (push_limb trailing 3 limb s) _
        (push_limb-Offered trailing 3 limb count total (count + 3) total1 s (omega (arith, d.2))
          refl refl h)
        (λ s' k.
          digits_loop-Offered trailing last left (count + 3) total1 count' total' q s' d.0 few
            (omega (arith, d.1, bound, pow-add 10 (3 * left + last) 3)) (omega (arith, c))
            (omega (arith, t, scaled, product)) k)
