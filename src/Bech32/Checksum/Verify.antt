-- ===== src/Bech32/Checksum/Verify.antt =====
-- The six digits of `create_checksum` are the one continuation that `verify_checksum` accepts.
use aex_cpp_sdk.Base.{ℕ, ◌+◌, ◌*◌, ◌^◌, ◌<◌, ◌≡◌, refl, sym, ap, ap₂, ◌∙◌, arith}
use aex_cpp_sdk.Base.{List, [], ◌∷◌, ◌++◌, append_assoc, length, replicate, All, true, ==_iff}
use aex_cpp_sdk.Base.{bit_and, bit_xor, bit_and-low, bit_and-le, bit_xor-zero, bit_xor-lt}
use aex_cpp_sdk.Base.{bit_xor_cancel, u8, ◌>>◌}
use mathlib.Core.Path.{subst}
use native.Mathlib.Nat.{le_trans, mod-le}
use Prim.Native.Nat.{suc-le-suc}
use aex_cpp_sdk.Bech32.Checksum.{generator, polymod_step, polymod_from, polymod, expand_hrp}
use aex_cpp_sdk.Bech32.Checksum.{verify_checksum, checksum_digits, create_checksum}
use aex_cpp_sdk.Bech32.Checksum.Linear.{
  polymod_from-bit_xor, polymod_from-append, polymod_step-small,
}

generator-lt : (t i g : ℕ) → g < 2 ^ 30 → generator t i g < 2 ^ 30
unfolding generator
generator-lt t i g h = le_trans (suc-le-suc (bit_and-le _ g)) h

-- The state is a number of 30 bits.
polymod_step-lt : (s v : ℕ) → v < 2 ^ 30 → polymod_step s v < 2 ^ 30
unfolding polymod_step
polymod_step-lt s v h =
    let t = u8 (s >> 25) in
    le_trans (suc-le-suc (mod-le _ (2 ^ 32))) (
      term t 4 0x2a1462b3 (omega arith) (
        term t 3 0x3d4233dd (omega arith) (
          term t 2 0x1ea119fa (omega arith) (
            term t 1 0x26508e6d (omega arith)
              (term t 0 0x3b6a57b2 (omega arith) (bit_xor-lt 30 _ v shifted h))))))
  where
    shifted : bit_and s 0x1ffffff * 2 ^ 5 < 2 ^ 30
    shifted = omega (arith, bit_and-low 25 s)

    term : (t i g : ℕ) → g < 2 ^ 30 → {x : ℕ} → x < 2 ^ 30 → bit_xor x (generator t i g) < 2 ^ 30
    term t i g fits {x} hx = bit_xor-lt 30 x (generator t i g) hx (generator-lt t i g fits)

polymod_zeros-lt : (s : ℕ) → polymod_from s (replicate 6 0) < 2 ^ 30
unfolding polymod_from
polymod_zeros-lt s = polymod_step-lt _ 0 (omega arith)

-- Six digits as one number.
abbrev number : ℕ → ℕ → ℕ → ℕ → ℕ → ℕ → ℕ
number a b c d e f = (((((0 * 32 + a) * 32 + b) * 32 + c) * 32 + d) * 32 + e) * 32 + f

-- From the state 0 six digits are gathered into one number.
polymod_from-number :
    (a b c d e f : ℕ)
    → All (λ x. x < 32) (a ∷ b ∷ c ∷ d ∷ e ∷ f ∷ [])
    → polymod_from 0 (a ∷ b ∷ c ∷ d ∷ e ∷ f ∷ []) ≡ number a b c d e f
unfolding polymod_from
polymod_from-number a b c d e f (ha, (hb, (hc, (hd, (he, (hf, _)))))) =
    next
      (next
        (next (next (next (next refl (omega arith) ha) (omega arith) hb) (omega arith) hc)
          (omega arith) hd)
        (omega arith) he)
      (omega arith) hf
  where
    next : {s t v : ℕ} → s ≡ t → t < 2 ^ 25 → v < 32 → polymod_step s v ≡ t * 32 + v
    next {t = t} {v = v} p small h = ap (λ x. polymod_step x v) p ∙ polymod_step-small t v small h

-- The digits of a number, each by its place.
checksum_digits_small : (m : ℕ) → All (λ x. x < 32) (checksum_digits m)
unfolding checksum_digits
checksum_digits_small m = (low 25, (low 20, (low 15, (low 10, (low 5, (low 0, tt))))))
  where
    low : (k : ℕ) → bit_and (m >> k) 31 < 32
    low k = omega (arith, bit_and-le (m >> k) 31)

polymod_from-checksum_digits : (m : ℕ) → m < 2 ^ 30 → polymod_from 0 (checksum_digits m) ≡ m
unfolding checksum_digits
polymod_from-checksum_digits m h =
    polymod_from-number _ _ _ _ _ _ (checksum_digits_small m)
    ∙ omega (
      arith,
      bit_and-low 5 (m >> 25),
      bit_and-low 5 (m >> 20),
      bit_and-low 5 (m >> 15),
      bit_and-low 5 (m >> 10),
      bit_and-low 5 (m >> 5),
      bit_and-low 5 (m >> 0),
    )

digits-number :
    (a b c d e f : ℕ)
    → All (λ x. x < 32) (a ∷ b ∷ c ∷ d ∷ e ∷ f ∷ [])
    → checksum_digits (number a b c d e f) ≡ a ∷ b ∷ c ∷ d ∷ e ∷ f ∷ []
unfolding checksum_digits
digits-number a b c d e f (ha, (hb, (hc, (hd, (he, (hf, _)))))) =
    let n = number a b c d e f in
    cons (bit_and-low 5 (n >> 25) ∙ omega arith) (
      cons (bit_and-low 5 (n >> 20) ∙ omega arith) (
        cons (bit_and-low 5 (n >> 15) ∙ omega arith) (
          cons (bit_and-low 5 (n >> 10) ∙ omega arith) (
            cons (bit_and-low 5 (n >> 5) ∙ omega arith)
              (cons (bit_and-low 5 (n >> 0) ∙ omega arith) refl)))))
  where
    cons : {x y : ℕ} {xs ys : List ℕ} → x ≡ y → xs ≡ ys → x ∷ xs ≡ y ∷ ys
    cons p q = ap₂ ◌∷◌ p q

-- The state after the data and six digits more.
polymod-six :
    (enc check : List ℕ)
    → length check ≡ 6
    → polymod (enc ++ check) ≡ bit_xor (polymod (enc ++ replicate 6 0)) (polymod_from 0 check)
unfolding polymod
polymod-six enc check six =
    polymod_from-append 1 enc check
    ∙ ap (λ s. polymod_from s check) (sym (bit_xor-zero (polymod_from 1 enc)))
    ∙ polymod_from-bit_xor (polymod_from 1 enc) 0 check
    ∙ ap
        (λ (k : ℕ).
          bit_xor (polymod_from (polymod_from 1 enc) (replicate k 0)) (polymod_from 0 check))
        six
    ∙ ap (λ s. bit_xor s (polymod_from 0 check)) (sym (polymod_from-append 1 enc (replicate 6 0)))

checksum_lt : (enc : List ℕ) → bit_xor (polymod (enc ++ replicate 6 0)) 1 < 2 ^ 30
unfolding polymod
checksum_lt enc =
    bit_xor-lt 30 _ 1
      (subst (λ s. s < 2 ^ 30) (sym (polymod_from-append 1 enc (replicate 6 0)))
        (polymod_zeros-lt (polymod_from 1 enc)))
      (omega arith)

pub create_checksum_small : (hrp values : List ℕ) → All (λ x. x < 32) (create_checksum hrp values)
unfolding create_checksum
create_checksum_small hrp values = checksum_digits_small _

pub length-create_checksum : (hrp values : List ℕ) → length (create_checksum hrp values) ≡ 6
unfolding create_checksum checksum_digits
length-create_checksum hrp values = refl

-- `verify_checksum` accepts any values followed by what `create_checksum` computes for them.
pub verify_checksum-create_checksum :
    (hrp values : List ℕ) → verify_checksum hrp (values ++ create_checksum hrp values) ≡ true
unfolding verify_checksum create_checksum
verify_checksum-create_checksum hrp values = (==_iff _ 1).1 (
    ap polymod (sym (append_assoc (expand_hrp hrp) values (checksum_digits m)))
    ∙ polymod-six enc (checksum_digits m) (unfold checksum_digits in refl)
    ∙ ap (bit_xor p) (polymod_from-checksum_digits m (checksum_lt enc))
    ∙ bit_xor_cancel p 1)
  where
    enc : List ℕ
    enc = expand_hrp hrp ++ values

    p : ℕ
    p = polymod (enc ++ replicate 6 0)

    m : ℕ
    m = bit_xor p 1

-- Six digits below 32 that `verify_checksum` accepts after some values are the ones that
-- `create_checksum` computes for them.
pub create_checksum_unique :
    (hrp values : List ℕ) (a b c d e f : ℕ)
    → All (λ x. x < 32) (a ∷ b ∷ c ∷ d ∷ e ∷ f ∷ [])
    → verify_checksum hrp (values ++ (a ∷ b ∷ c ∷ d ∷ e ∷ f ∷ [])) ≡ true
    → create_checksum hrp values ≡ a ∷ b ∷ c ∷ d ∷ e ∷ f ∷ []
unfolding verify_checksum create_checksum
create_checksum_unique hrp values a b c d e f small ok =
    ap checksum_digits (sym (ap (bit_xor p) total) ∙ bit_xor_cancel p (number a b c d e f))
    ∙ digits-number a b c d e f small
  where
    enc : List ℕ
    enc = expand_hrp hrp ++ values

    check : List ℕ
    check = a ∷ b ∷ c ∷ d ∷ e ∷ f ∷ []

    p : ℕ
    p = polymod (enc ++ replicate 6 0)

    total : bit_xor p (number a b c d e f) ≡ 1
    total =
        ap (bit_xor p) (sym (polymod_from-number a b c d e f small))
        ∙ sym (polymod-six enc check refl)
        ∙ ap polymod (append_assoc (expand_hrp hrp) values check)
        ∙ (==_iff _ 1).0 ok
