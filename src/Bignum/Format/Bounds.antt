-- ===== src/Bignum/Format/Bounds.antt =====
-- `bn_format` writes inside of its buffer.
use aex_cpp_sdk.Base.{
  ℕ, zero, suc, ◌+◌, ◌-◌, ◌/◌, ◌%◌, ◌<◌, ◌≡◌, refl, ◌∙◌, arith, List, ◌++◌, Bool, true, false, ◌==◌,
  if◌then◌else◌,
}
use aex_cpp_sdk.Base.{Option, none, some, ℤ, pos, negsuc, length, length-append}
use aex_cpp_sdk.Bignum.Format.{
  Printing, ◌>>=◌, with_exponent, push, zeros_loop, push_zeros, push_limb, digits_loop, unfinished,
  fill_loop, rounds, fill, start_printing, print_digits, string_or_empty, bn_format,
}
use aex_cpp_sdk.Bignum.Format.Filling.{Goes, bind-Goes, map-Goes, size, Pushed, push-Pushed}
use aex_cpp_sdk.Bignum.Decimal.{bn_divmod1000}

module _ (n : ℕ) where
  -- So many bytes are written or free.
  abbrev Sized : Printing → Type 0
  Sized s = size s ≡ n

  push-Sized :
      (trailing : Bool) (digit : ℕ) (s : Printing) → Sized s → Goes Sized (push trailing digit s)
  push-Sized trailing digit s h =
      map-Goes (Pushed (0x30 + digit) s) Sized (push trailing digit s)
        (push-Pushed trailing digit s) (λ s' p. p.size ∙ h)

  zeros_loop-Sized :
      (trailing : Bool) (left : ℕ) (s : Printing)
      → Sized s
      → Goes Sized (zeros_loop trailing left s)
  unfolding zeros_loop with_exponent
  zeros_loop-Sized trailing zero s h = h
  zeros_loop-Sized trailing (suc left) s h =
      bind-Goes Sized Sized (push trailing 0 s) _ (push-Sized trailing 0 s h)
        (λ s' k. zeros_loop-Sized trailing left (with_exponent (pos left) s') k)

  push_zeros-Sized : (trailing : Bool) (s : Printing) → Sized s → Goes Sized (push_zeros trailing s)
  unfolding push_zeros
  push_zeros-Sized trailing s h = of_exponent s.exponent
    where
      of_exponent :
          (e : ℤ) → Goes Sized (elim e [ pos e ↦ zeros_loop trailing e s | negsuc e ↦ some s ])
      of_exponent (pos e) = zeros_loop-Sized trailing e s h
      of_exponent (negsuc e) = h

  push_limb-Sized :
      (trailing : Bool) (left limb : ℕ) (s : Printing)
      → Sized s
      → Goes Sized (push_limb trailing left limb s)
  unfolding push_limb
  push_limb-Sized trailing zero limb s h = h
  push_limb-Sized trailing (suc left) limb s h =
      bind-Goes Sized Sized (push trailing (limb % 10) s) _ (push-Sized trailing (limb % 10) s h)
        (λ s' k. push_limb-Sized trailing left (limb / 10) s' k)

  digits_loop-Sized :
      (trailing : Bool) (last left : ℕ) (val : List ℕ) (s : Printing)
      → Sized s
      → Goes Sized (digits_loop trailing last left val s)
  unfolding digits_loop
  digits_loop-Sized trailing last zero val s h = when (last == 0)
    where
      when :
          (b : Bool)
          → Goes Sized (if b then some s else push_limb trailing last (bn_divmod1000 val).1 s)
      when true = h
      when false = push_limb-Sized trailing last (bn_divmod1000 val).1 s h
  digits_loop-Sized trailing last (suc left) val s h =
      bind-Goes Sized Sized (push_limb trailing 3 (bn_divmod1000 val).1 s) _
        (push_limb-Sized trailing 3 (bn_divmod1000 val).1 s h)
        (λ s' k. digits_loop-Sized trailing last left (bn_divmod1000 val).0 s' k)

  fill_loop-Sized :
      (left : ℕ) (trailing : Bool) (suffix : List ℕ) (s : Printing)
      → Sized s
      → Goes Sized (fill_loop left trailing suffix s)
  unfolding fill_loop
  fill_loop-Sized zero trailing suffix s h = h
  fill_loop-Sized (suc left) trailing suffix s h =
      when (fill_loop-Sized left trailing suffix) (unfinished suffix s)
    where
      when :
          ((t : Printing) → Sized t → Goes Sized (fill_loop left trailing suffix t))
          → (b : Bool)
          → Goes Sized (if b then push trailing 0 s >>= fill_loop left trailing suffix else some s)
      when rest true = bind-Goes Sized Sized (push trailing 0 s) _ (push-Sized trailing 0 s h) rest
      when rest false = h

  fill-Sized :
      (trailing : Bool) (suffix : List ℕ) (s : Printing)
      → Sized s
      → Goes Sized (fill trailing suffix s)
  unfolding fill
  fill-Sized trailing suffix s h = fill_loop-Sized (rounds s) trailing suffix s h

print_digits-Sized :
    (amnt : List ℕ) (decimals : ℕ) (exponent : ℤ) (trailing : Bool) (room : ℕ)
    → Goes (Sized room) (print_digits amnt decimals exponent trailing room)
unfolding print_digits start_printing
print_digits-Sized amnt decimals exponent trailing room =
    bind-Goes (Sized room) (Sized room) (push_zeros trailing _) _
      (push_zeros-Sized room trailing _ (omega arith)) (digits_loop-Sized room trailing _ _ amnt)

-- The prefix and the suffix stand around the text.
framed-bound :
    (prefix suffix out : List ℕ) (room outlen : ℕ) (o : Option Printing)
    → length prefix + length suffix < outlen
    → room ≡ outlen - length suffix - 1 - length prefix
    → Goes (Sized room) o
    → (o >>= λ s. some (prefix ++ (s.text ++ suffix))) ≡ some out
    → length out < outlen
framed-bound prefix suffix out room outlen none space r h e = absurd (cc)
framed-bound prefix suffix out room outlen (some s) space r h e =
    let same : out ≡ prefix ++ (s.text ++ suffix) = cc in
    let outer = length-append prefix (s.text ++ suffix) in
    let inner = length-append s.text suffix in rw same (omega (arith, outer, inner, h, r, space))

-- A text that `bn_format` writes is shorter than the buffer, for every exponent, if the prefix and
-- the suffix are together shorter than the buffer.
pub bn_format-bound :
    (amnt : List ℕ) (prefix suffix : Option (List ℕ)) (decimals : ℕ) (exponent : ℤ)
    (trailing : Bool) (outlen : ℕ) (out : List ℕ)
    → length (string_or_empty prefix) + length (string_or_empty suffix) < outlen
    → bn_format amnt prefix suffix decimals exponent trailing outlen ≡ some out
    → length out < outlen
unfolding bn_format
bn_format-bound amnt prefix suffix decimals exponent trailing outlen out space h =
    let before = string_or_empty prefix in
    let after = string_or_empty suffix in
    let room = outlen - length after - 1 - length before in
    framed-bound before after out room outlen
      (print_digits amnt decimals exponent trailing room >>= fill trailing after) space refl
      (bind-Goes (Sized room) (Sized room) (print_digits amnt decimals exponent trailing room)
        (fill trailing after) (print_digits-Sized amnt decimals exponent trailing room)
        (fill-Sized room trailing after))
      h
