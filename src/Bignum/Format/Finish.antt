-- ===== src/Bignum/Format/Finish.antt =====
-- The last loop of `bn_format` leaves a text that stands for the number.
use aex_cpp_sdk.Base.{
  ℕ, zero, suc, ◌+◌, ◌*◌, ◌/◌, ◌^◌, ◌<◌, ◌≡◌, refl, sym, ap, arith, List, Bool, true, false, ◌||◌,
  leb, if◌then◌else◌, Bool-cases, inl, inr, pow-add,
}
use aex_cpp_sdk.Base.{Option, none, some, deficit, All}
use mathlib.Core.Path.{subst}
use aex_cpp_sdk.Bignum.Format.{Printing, ◌>>=◌, push, unfinished, fill_loop, rounds, fill}
use aex_cpp_sdk.Bignum.Format.Filling.{Goes, bind-Goes, map-Goes, Finished, fill_loop-Finished}
use aex_cpp_sdk.Bignum.Format.Count.{mul_le}
use aex_cpp_sdk.Bignum.Format.Meaning.{mantissa, places, IsDecimalChar}
use aex_cpp_sdk.Bignum.Format.Number.{same_numbers}
use aex_cpp_sdk.Bignum.Format.Skipped.{Offered, push-Offered}
use native.Mathlib.Nat.{div-eq_of_lt, div-eq_of_lt-le}

-- The pushed digits make a number.
pub record Prints (first skip total : ℕ) (s : Printing) : Type 0 where
  pub count : ℕ
  pub offered : Offered first skip count total s

fill_loop-Prints :
    (first skip total left : ℕ) (trailing : Bool) (suffix : List ℕ) (s : Printing)
    → Prints first skip total s
    → Goes (Prints first skip total) (fill_loop left trailing suffix s)
unfolding fill_loop
fill_loop-Prints first skip total zero trailing suffix s h = h
fill_loop-Prints first skip total (suc left) trailing suffix s h =
    when (fill_loop-Prints first skip total left trailing suffix) (unfinished suffix s)
  where
    when :
        ((t : Printing)
          → Prints first skip total t
          → Goes (Prints first skip total) (fill_loop left trailing suffix t))
        → (b : Bool)
        → Goes
            (Prints first skip total)
            (if b then push trailing 0 s >>= fill_loop left trailing suffix else some s)
    when rest true =
        bind-Goes (Offered first skip (suc h.count) (0 * 10 ^ h.count + total))
          (Prints first skip total) (push trailing 0 s) _
          (push-Offered first skip h.count total trailing 0 s (omega arith) h.offered)
          (λ t k. rest t (record {
            count = suc h.count;
            offered =
                same_numbers first skip (suc h.count) (0 * 10 ^ h.count + total) (suc h.count) total
                  t refl (omega arith) k;
          }))
    when rest false = h

both-Goes :
    (P Q : Printing → Type 0) (o : Option Printing) → Goes P o → Goes Q o → Goes (λ s. P s × Q s) o
both-Goes P Q none h k = tt
both-Goes P Q (some s) h k = (h, k)

-- The text stands for a number with so many decimals.
pub record Reads (decimals total : ℕ) (text : List ℕ) : Type 0 where
  pub chars : All IsDecimalChar text
  pub number : total * 10 ^ places text ≡ mantissa text * 10 ^ decimals

no_decimals : (d : ℕ) (c : Bool) → (leb 1 d || c) ≡ false → d ≡ 0
no_decimals d c f = elim (Bool-cases (leb 1 d)) [
  | inl e ↦ let holds : (leb 1 d || c) ≡ true = rw e refl in absurd (cc)
  | inr e ↦ ground (arith, e)
]

pub pow_pos : (n : ℕ) → 0 < 10 ^ n
pow_pos zero = omega arith
pow_pos (suc n) = omega (arith, pow_pos n)

-- A number of fewer digits than are skipped.
short-lt :
    (total count more skip : ℕ) → total < 10 ^ count → more + count ≡ skip → total < 10 ^ skip
short-lt total count more skip h e =
    let power = ap (λ (k : ℕ). 10 ^ k) e in
    let m = mul_le 1 (10 ^ more) (10 ^ count) (pow_pos more) in
    omega (arith, h, power, pow-add 10 more count, m)

Finished-Reads :
    (first skip total : ℕ) (suffix : List ℕ) (s : Printing)
    → Prints first skip total s
    → Finished suffix s
    → Reads first (total / 10 ^ skip) s.text
unfolding unfinished mantissa places
Finished-Reads first skip total suffix s h f = elim h.offered.part [
  | inl b ↦
      let small = short-lt total h.count (deficit s.exponent) skip h.offered.bound b.missing in
      let none_left : total / 10 ^ skip ≡ 0 = div-eq_of_lt small in
      record {
        chars = subst (λ (text : List ℕ). All IsDecimalChar text) (sym b.text) tt;
        number = rw b.text (rw none_left (omega arith));
      }
  | inr b ↦
      let d = b.denotes in
      let none_left = no_decimals s.decimals _ f in
      let quotient : total / 10 ^ skip ≡ b.quotient =
        div-eq_of_lt-le (10 ^ skip) (omega (arith, b.split)) (omega (arith, b.split, b.small)) in
      let product = ap (λ (k : ℕ). k * 10 ^ places s.text) d.number in
      let power = ap (λ (k : ℕ). mantissa s.text * k) (pow-add 10 (places s.text) d.zeros) in
      let exponents = ap (λ (k : ℕ). mantissa s.text * 10 ^ k) (d.after none_left) in
      record { chars = d.chars; number = rw quotient (omega (arith, product, power, exponents)) }
]

pub fill-Reads :
    (first skip total : ℕ) (trailing : Bool) (suffix : List ℕ) (s : Printing)
    → Prints first skip total s
    → Goes (λ t. Reads first (total / 10 ^ skip) t.text) (fill trailing suffix s)
unfolding fill
fill-Reads first skip total trailing suffix s h =
    map-Goes (λ t. Prints first skip total t × Finished suffix t)
      (λ t. Reads first (total / 10 ^ skip) t.text) (fill_loop (rounds s) trailing suffix s)
      (both-Goes (Prints first skip total) (Finished suffix)
        (fill_loop (rounds s) trailing suffix s)
        (fill_loop-Prints first skip total (rounds s) trailing suffix s h)
        (fill_loop-Finished (rounds s) trailing suffix s (omega arith)))
      (λ t k. Finished-Reads first skip total suffix t k.0 k.1)
