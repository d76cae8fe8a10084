-- ===== src/Bignum/Format/Filling.antt =====
-- The last loop of `bn_format` ends, and nothing is written outside of the buffer.
use aex_cpp_sdk.Base.{
  ℕ, zero, suc, ◌+◌, ◌-◌, ◌≤◌, ◌<◌, ◌≡◌, refl, ap, ◌∙◌, arith, List, ◌∷◌, Bool, true, false, ◌||◌,
  not, ◌==◌, leb, if◌then◌else◌, Bool-cases, ◌⊎◌, inl, inr,
}
use aex_cpp_sdk.Base.{Option, none, some, ℤ, pos, negsuc, is_negative, sucℤ, deficit, length}
use aex_cpp_sdk.Bignum.Format.{
  Printing, ◌>>=◌, push_checked, push_digit, push_point, with_exponent, push, unfinished, fill_loop,
  rounds,
}

-- What holds of the locals, if `bn_format` goes on.
abbrev pub Goes : (Printing → Type 0) → Option Printing → Type 0
Goes P none = Unit
Goes P (some s) = P s

pub bind-Goes :
    (P Q : Printing → Type 0) (o : Option Printing) (f : Printing → Option Printing)
    → Goes P o
    → ((s : Printing) → P s → Goes Q (f s))
    → Goes Q (o >>= f)
bind-Goes P Q none f h k = tt
bind-Goes P Q (some s) f h k = k s h

pub map-Goes :
    (P Q : Printing → Type 0) (o : Option Printing)
    → Goes P o
    → ((s : Printing) → P s → Q s)
    → Goes Q o
map-Goes P Q none h k = tt
map-Goes P Q (some s) h k = k s h

-- What is written and what is free stay the same together.
abbrev pub size : Printing → ℕ
size s = length s.text + s.room

record Checked (c : ℕ) (s s' : Printing) : Type 0 where
  decimals : s'.decimals ≡ s.decimals
  exponent : deficit s'.exponent ≡ deficit s.exponent
  text : s'.text ≡ c ∷ s.text
  size : size s' ≡ size s

push_checked-Checked : (c : ℕ) (s : Printing) → Goes (Checked c s) (push_checked c s)
unfolding push_checked
push_checked-Checked c s = elim (Bool-cases (s.room == 0)) [
  | inl e ↦ rw e tt
  | inr e ↦
      let free : 0 < s.room = ground (arith, e) in
      rw e (record { decimals = refl; exponent = refl; text = refl; size = omega (arith, free) })
]

-- The digit, which is printed if no decimals are left.
record Digit (c : ℕ) (s s' : Printing) : Type 0 where
  decimals : s'.decimals ≡ s.decimals
  exponent : deficit s'.exponent ≡ deficit s.exponent
  text : s.decimals ≡ 0 → s'.text ≡ c ∷ s.text
  size : size s' ≡ size s

push_digit-Digit :
    (trailing : Bool) (n : ℕ) (s : Printing) → Goes (Digit (0x30 + n) s) (push_digit trailing n s)
unfolding push_digit
push_digit-Digit trailing n s =
    choose (leb 1 n || (trailing || (not (length s.text == 0) || leb s.decimals 1))) refl
  where
    last : (a b c : Bool) → (a || (b || (c || true))) ≡ true
    last true b c = refl
    last false true c = refl
    last false false true = refl
    last false false false = refl

    skipped :
        (a b c : Bool)
        → (a || (b || (c || leb s.decimals 1))) ≡ false
        → s.decimals ≡ 0
        → s.text ≡ (0x30 + n) ∷ s.text
    skipped a b c e z =
        let one : leb s.decimals 1 ≡ true = ground (arith, z) in let all = last a b c in absurd (cc)

    choose :
        (b : Bool)
        → (leb 1 n || (trailing || (not (length s.text == 0) || leb s.decimals 1))) ≡ b
        → Goes (Digit (0x30 + n) s) (if b then push_checked (0x30 + n) s else some s)
    choose true e =
        map-Goes (Checked (0x30 + n) s) (Digit (0x30 + n) s) (push_checked (0x30 + n) s)
          (push_checked-Checked (0x30 + n) s)
          (λ s' h. record {
            decimals = h.decimals;
            exponent = h.exponent;
            text = λ z. h.text;
            size = h.size;
          })
    choose false e = record {
      decimals = refl;
      exponent = refl;
      text = skipped (leb 1 n) trailing (not (length s.text == 0)) e;
      size = refl;
    }

-- The point, which is not printed if no decimals are left.
record Point (s s' : Printing) : Type 0 where
  decimals : s'.decimals ≡ s.decimals - 1
  exponent : deficit s'.exponent ≡ deficit s.exponent
  text : s.decimals ≡ 0 → s'.text ≡ s.text
  size : size s' ≡ size s

push_point-Point : (s : Printing) → Goes (Point s) (push_point s)
unfolding push_point
push_point-Point s = elim (Bool-cases (s.decimals == 1)) [
  | inl e ↦
      let s' : Printing = record {
        decimals = s.decimals - 1;
        exponent = s.exponent;
        text = s.text;
        room = s.room;
      } in
      rw e (
        map-Goes (Checked 0x2e s') (Point s) (push_checked 0x2e s') (push_checked-Checked 0x2e s')
          (λ t h. record {
            decimals = h.decimals;
            exponent = h.exponent;
            text = λ z. absurd (ground (arith, e, z));
            size = h.size;
          }))
  | inr e ↦ rw e (record { decimals = refl; exponent = refl; text = λ z. refl; size = refl })
]

-- A round of the exponent below zero, or one of the decimals; with none left, the digit is printed.
pub record Pushed (c : ℕ) (s s' : Printing) : Type 0 where
  progress :
      (deficit s.exponent ≡ suc (deficit s'.exponent)) × (s'.decimals ≡ s.decimals)
      ⊎ (deficit s'.exponent ≡ 0)
        × (s'.decimals ≡ s.decimals - 1)
        × (s.decimals ≡ 0 → s'.text ≡ c ∷ s.text)
  pub size : size s' ≡ size s

pub sign_cases :
    (e : ℤ)
    → (is_negative e ≡ true) × (deficit e ≡ suc (deficit (sucℤ e)))
      ⊎ (is_negative e ≡ false) × (deficit e ≡ 0)
sign_cases (pos n) = inr (refl, refl)
sign_cases (negsuc zero) = inl (refl, refl)
sign_cases (negsuc (suc n)) = inl (refl, refl)

pub push-Pushed :
    (trailing : Bool) (n : ℕ) (s : Printing) → Goes (Pushed (0x30 + n) s) (push trailing n s)
unfolding push with_exponent
push-Pushed trailing n s = elim (sign_cases s.exponent) [
  | inl (e, d) ↦ rw e (record { progress = inl (d, refl); size = refl })
  | inr (e, d) ↦ rw e (
      bind-Goes (Digit (0x30 + n) s) (Pushed (0x30 + n) s) (push_digit trailing n s) push_point
        (push_digit-Digit trailing n s)
        (λ t h.
          map-Goes (Point t) (Pushed (0x30 + n) s) (push_point t) (push_point-Point t) (λ s' k.
            record {
              progress = inr (
                k.exponent ∙ h.exponent ∙ d,
                k.decimals ∙ ap (λ (m : ℕ). m - 1) h.decimals,
                λ z. k.text (h.decimals ∙ z) ∙ h.text z,
              );
              size = k.size ∙ h.size;
            })))
]

-- The condition of the loop does not hold.
abbrev pub Finished : List ℕ → Printing → Type 0
Finished suffix s = unfinished suffix s ≡ false

-- A loop that is over stays so, whatever rounds are left.
fill_loop-over :
    (left : ℕ) (trailing : Bool) (suffix : List ℕ) (s : Printing)
    → Finished suffix s
    → Goes (Finished suffix) (fill_loop left trailing suffix s)
unfolding fill_loop
fill_loop-over zero trailing suffix s h = h
fill_loop-over (suc left) trailing suffix s h = rw h h

-- Without decimals, a digit ends the loop.
zero-Finished :
    (suffix : List ℕ) (s : Printing) (text : List ℕ)
    → s.decimals ≡ 0
    → s.text ≡ 0x30 ∷ text
    → Finished suffix s
unfolding unfinished
zero-Finished suffix s text d t = rw d (rw t refl)

-- A round on which the condition holds, if fewer rounds are enough for what it leaves.
round-Finished :
    (left : ℕ) (trailing : Bool) (suffix : List ℕ) (s s' : Printing)
    → rounds s ≤ suc left
    → ((t : Printing) → rounds t ≤ left → Goes (Finished suffix) (fill_loop left trailing suffix t))
    → Pushed 0x30 s s'
    → Goes (Finished suffix) (fill_loop left trailing suffix s')
unfolding rounds
round-Finished left trailing suffix s s' h loop p = elim p.progress [
  | inl (e, d) ↦ loop s' (omega (arith, h, e, d))
  | inr (e, d, t) ↦ elim (Bool-cases (s.decimals == 0)) [
    | inl z ↦
        let none_left : s.decimals ≡ 0 = ground (arith, z) in
        fill_loop-over left trailing suffix s'
          (zero-Finished suffix s' s.text (d ∙ omega (arith, none_left)) (t none_left))
    | inr z ↦
        let some_left : 0 < s.decimals = ground (arith, z) in
        loop s' (omega (arith, h, e, d, some_left))
  ]
]

-- The last loop of `bn_format` ends: with as many rounds as the exponent is below zero, and as
-- there are decimals, and one more, it comes to a state where its condition does not hold, or the
-- buffer is full.
pub fill_loop-Finished :
    (left : ℕ) (trailing : Bool) (suffix : List ℕ) (s : Printing)
    → rounds s ≤ left
    → Goes (Finished suffix) (fill_loop left trailing suffix s)
unfolding fill_loop rounds
fill_loop-Finished zero trailing suffix s h = absurd (omega (arith, h))
fill_loop-Finished (suc left) trailing suffix s h =
    let loop = fill_loop-Finished left trailing suffix in
    elim (Bool-cases (unfinished suffix s)) [
      | inr e ↦ rw e e
      | inl e ↦ rw e (
          bind-Goes (Pushed 0x30 s) (Finished suffix) (push trailing 0 s)
            (fill_loop left trailing suffix) (push-Pushed trailing 0 s)
            (λ s' p. round-Finished left trailing suffix s s' h loop p))
    ]
