-- ===== src/Ecdsa/Signature/Signing.antt =====
-- The signatures that `ecdsa_sign_digest` gives.
use aex_cpp_sdk.Ecdsa.Signature.{
  Canonical, Signed, r_part, s_part, lower_half, signature_of, finish_round, sign_round, sign_loop,
  ecdsa_sign_digest,
}
use aex_cpp_sdk.Base.{ℕ, zero, suc, ◌+◌, ◌*◌, ◌^◌, ◌≤◌, ◌<◌, ◌≡◌, ◌≢◌, refl, sym, ap, ◌∙◌, arith}
use aex_cpp_sdk.Base.{
  List, ◌++◌, Bool, true, false, Bool-cases, inl, inr, ◌||◌, not, ltb, ltb→lt, ◌==◌, if◌then◌else◌,
}
use aex_cpp_sdk.Base.{
  Option, none, some, drop, get_or, All, IsByte, All-append, length, length-append, ap₂,
}
use mathlib.Core.Path.{subst}
use aex_cpp_sdk.Bignum.Value.{value, IsBignum, AtMost, Reduced, weaken, Reduced→AtMost}
use aex_cpp_sdk.Bignum.Compare.{bn_is_zero, bn_is_less}
use aex_cpp_sdk.Bignum.Compare.Less.{bn_is_less_lem}
use aex_cpp_sdk.Bignum.Compare.Tests.{bn_is_zero_lem}
use aex_cpp_sdk.Bignum.Arith.Differences.{bn_subtract_lem}
use aex_cpp_sdk.Bignum.Bytes.{bn_read_be, bn_write_be}
use aex_cpp_sdk.Bignum.Bytes.Bounds.{bn_read_be-bound, length-bn_write_be, bn_write_be-IsByte}
use aex_cpp_sdk.Bignum.Bytes.Write.{bn_read_be-bn_write_be}
use aex_cpp_sdk.Bignum.Reduce.FastMod.{IsPrimeSize}
use aex_cpp_sdk.Bignum.Multiples
use aex_cpp_sdk.Ecdsa.Curve.{Point, Curve}
use aex_cpp_sdk.Ecdsa.Curve.Field.{IsField, IsPoint}
use aex_cpp_sdk.Ecdsa.Jacobian.{Random, pure}
use aex_cpp_sdk.Ecdsa.Jacobian.Results.{Always, pure-Always, bind-Always}
use aex_cpp_sdk.Ecdsa.Keys.RoundTrip.{read_first, drop_first}
use aex_cpp_sdk.Ecdsa.Jacobian.Nonces.{generate_k_random_lem}
use aex_cpp_sdk.Ecdsa.Scalar.Invariant.{IsTable, scalar_multiply-IsPoint}
use aex_cpp_sdk.Ecdsa.Deterministic.{Rfc6979, init_rfc6979, generate_k_rfc6979}
use aex_cpp_sdk.Ecdsa.Deterministic.Bounds.{generate_k_rfc6979-IsBignum}

-- An order that the operations can take, with its half.
pub record IsOrder (curve : Curve) : Type 0 where
  pub order : IsPrimeSize curve.order
  pub low : 2 ≤ get_or curve.order 0 0
  pub half : IsBignum curve.order_half
  pub odd : value curve.order ≡ 2 * value curve.order_half + 1

-- The signature has 64 bytes. Both numbers are positive, and `s` is in the lower half.
pub record IsLow (curve : Curve) (signed : Signed) : Type 0 where
  pub full : length signed.0 ≡ 64
  pub bytes : All IsByte signed.0
  pub r_positive : value (bn_read_be signed.0) ≢ 0
  pub s_positive : value (bn_read_be (drop 32 signed.0)) ≢ 0
  pub s_low : value (bn_read_be (drop 32 signed.0)) ≤ value curve.order_half

-- Of a signature, if there is one.
abbrev pub Low : Curve → Option Signed → Type 0
Low curve none = Unit
Low curve (some signed) = IsLow curve signed

module _ (curve : Curve) (g : IsOrder curve) where
  abbrev order : List ℕ
  order = curve.order

  -- The number in 32 bytes is not more than eight times the order.
  bytes-AtMost : (bytes : List ℕ) → All IsByte bytes → AtMost 2 order (bn_read_be bytes)
  bytes-AtMost bytes h =
      let b = bn_read_be-bound bytes h in
      record { bignum = b.0; bound = omega (arith, b.1, g.order.above) }

  s_part-Reduced :
      (priv_key z k r randk : List ℕ)
      → All IsByte priv_key
      → AtMost 2 order z
      → Reduced order k
      → AtMost 2 order r
      → Reduced order randk
      → Reduced order (s_part curve priv_key z k r randk)
  unfolding s_part
  s_part-Reduced priv_key z k r randk hp hz hk hr hn =
      let rand = Reduced→AtMost hn in
      let product =
        Multiples.times order g.order (omega arith) (omega arith) rand (Reduced→AtMost hk) in
      let inv =
        Reduced→AtMost
          (Multiples.inverse-Reduced order g.order g.low (weaken (omega arith) product)) in
      let rp =
        Multiples.times order g.order (omega arith) (omega arith) hr (bytes-AtMost priv_key hp) in
      let sum = Multiples.add-AtMost order g.order rp hz in
      let s = Multiples.times order g.order (omega arith) (omega arith) inv sum in
      Multiples.mod-Reduced order g.order (
        Multiples.multiply-IsPartly order g.order (weaken (omega arith) rand)
          (weaken (omega arith) s))

  -- The lower half.
  lower_half_lem :
      (s : List ℕ) (by : ℕ)
      → Reduced order s
      → value s ≢ 0
      → let out = (lower_half curve s by).0 in
        IsBignum out × (value out ≢ 0) × (value out ≤ value curve.order_half)
  unfolding lower_half
  lower_half_lem s by p pos = elim (Bool-cases (ltb (value curve.order_half) (value s))) [
    | inl e ↦
        let d = bn_subtract_lem order s g.order.bignum p.bignum (omega (arith, p.less)) in
        let large : value curve.order_half < value s =
          ltb→lt (value curve.order_half) (value s) e in
        rw (bn_is_less_lem curve.order_half s g.half p.bignum)
          (rw e (d.0, λ z. omega (arith, z, d.1, p.less), omega (arith, d.1, large, g.odd)))
    | inr e ↦
        rw (bn_is_less_lem curve.order_half s g.half p.bignum)
          (rw e (p.bignum, pos, at_most (value curve.order_half) (value s) e))
  ]
    where
      at_most : (a b : ℕ) → ltb a b ≡ false → b ≤ a
      at_most a b h = ground arith

  -- The numbers that are written are read again.
  signed-IsLow :
      (r s : List ℕ) (by : ℕ)
      → IsBignum r
      → value r < 2 ^ 256
      → value r ≢ 0
      → IsBignum s
      → value s ≢ 0
      → value s ≤ value curve.order_half
      → IsLow curve (bn_write_be r ++ bn_write_be s, by)
  signed-IsLow r s by p small pos q pos' low =
      let first = read_first r (bn_write_be s) ∙ bn_read_be-bn_write_be r p small in
      let second =
        ap bn_read_be (drop_first r (bn_write_be s))
        ∙ bn_read_be-bn_write_be s q (omega (arith, low, g.odd, g.order.below)) in
      record {
        full =
            length-append (bn_write_be r) (bn_write_be s)
            ∙ ap₂ ◌+◌ (length-bn_write_be r) (length-bn_write_be s);
        bytes =
            All-append IsByte (bn_write_be r) (bn_write_be s) (bn_write_be-IsByte r)
              (bn_write_be-IsByte s);
        r_positive = λ z. pos (sym (ap value first) ∙ z);
        s_positive = λ z. pos' (sym (ap value second) ∙ z);
        s_low = subst (λ (a : List ℕ). value a ≤ value curve.order_half) (sym second) low;
      }

  signature_of-Low :
      (canonical : Canonical) (priv_key z k : List ℕ) (rb : List ℕ × ℕ) (randk : List ℕ)
      → All IsByte priv_key
      → AtMost 2 order z
      → Reduced order k
      → AtMost 2 order rb.0
      → value rb.0 < 2 ^ 256
      → value rb.0 ≢ 0
      → Reduced order randk
      → Low curve (signature_of curve canonical priv_key z k rb randk)
  unfolding signature_of
  signature_of-Low canonical priv_key z k rb randk hp hz hk hr small pos hn =
      let s = s_part curve priv_key z k rb.0 randk in
      let r = s_part-Reduced priv_key z k rb.0 randk hp hz hk hr hn in
      choose _ _ _ (λ e.
        let low = lower_half_lem s rb.1 r (nonzero (value s) (sym (bn_is_zero_lem s) ∙ e)) in
        signed-IsLow rb.0 (lower_half curve s rb.1).0 _ hr.bignum small pos low.0 low.1 low.2)
    where
      nonzero : (n : ℕ) → (n == 0) ≡ false → n ≢ 0
      nonzero n h = ground arith

      choose :
          (c d : Bool) (signed : Signed)
          → (c ≡ false → IsLow curve signed)
          → Low curve (if c then none else if d then some signed else none)
      choose true d signed h = tt
      choose false true signed h = h refl
      choose false false signed h = tt

  r_part-bound :
      (p : Point)
      → IsBignum p.x
      → value p.x < 2 ^ 256
      → AtMost 2 order (r_part curve p).0 × (value (r_part curve p).0 < 2 ^ 256)
  unfolding r_part
  r_part-bound p q small = elim (Bool-cases (ltb (value p.x) (value order))) [
    | inl e ↦
        rw (bn_is_less_lem p.x order q g.order.bignum)
          (rw e (record { bignum = q; bound = omega (arith, small, g.order.above) }, small))
    | inr e ↦
        let d = bn_subtract_lem p.x order q g.order.bignum (at_most (value p.x) (value order) e) in
        rw (bn_is_less_lem p.x order q g.order.bignum) (
          rw e (
            record { bignum = d.0; bound = omega (arith, d.1, small, g.order.above) },
            omega (arith, d.1, small),
          ))
  ]
    where
      at_most : (a b : ℕ) → ltb a b ≡ false → b ≤ a
      at_most a b h = ground arith

  -- A test that ends the round, or something that does not hold.
  guard :
      (c : Bool) {m : Random (Option Signed)}
      → (c ≡ false → Always (Low curve) m)
      → Always (Low curve) (if c then pure none else m)
  guard true h = pure-Always tt
  guard false h = h refl

  module _ (f : IsField curve) (t : IsTable curve f) (canonical : Canonical) (priv_key z : List ℕ)
      (hp : All IsByte priv_key) (hz : AtMost 2 order z) where
    finish_round-Low :
        (k : List ℕ) (p : Point)
        → Reduced order k
        → IsPoint curve p
        → Always (Low curve) (finish_round curve canonical priv_key z k p)
    unfolding finish_round
    finish_round-Low k p hk q =
        let r = r_part-bound p q.x.bignum (omega (arith, q.x.less, f.prime.below)) in
        guard (bn_is_zero (r_part curve p).0) (λ e.
          bind-Always (generate_k_random_lem order g.order.bignum) (λ randk n. pure-Always (
            signature_of-Low canonical priv_key z k (r_part curve p) randk hp hz hk r.0 r.1
              (nonzero (value (r_part curve p).0) (sym (bn_is_zero_lem (r_part curve p).0) ∙ e))
              n.reduced)))
      where
        nonzero : (n : ℕ) → (n == 0) ≡ false → n ≢ 0
        nonzero n h = ground arith

    sign_round-Low :
        (k : List ℕ) → IsBignum k → Always (Low curve) (sign_round curve canonical priv_key z k)
    unfolding sign_round
    sign_round-Low k p = guard (bn_is_zero k || not (bn_is_less k order)) (λ e.
        bind-Always (scalar_multiply-IsPoint curve f k t) (λ point q.
          finish_round-Low k point
            (record {
              bignum = p;
              less =
                  below (value k) (value order) (bn_is_zero k)
                    (rw (sym (bn_is_less_lem k order p g.order.bignum)) e);
            })
            q))
      where
        below : (k n : ℕ) (c : Bool) → (c || not (ltb k n)) ≡ false → k < n
        below k n true h = ground arith
        below k n false h = ground arith

    sign_loop-Low :
        (left : ℕ) (rng : Rfc6979)
        → Always (Low curve) (sign_loop left curve canonical priv_key z rng)
    unfolding sign_loop
    sign_loop-Low zero rng = pure-Always tt
    sign_loop-Low (suc left) rng =
        bind-Always (sign_round-Low (generate_k_rfc6979 rng).0 (generate_k_rfc6979-IsBignum rng))
          (λ result h. again (sign_loop-Low left (generate_k_rfc6979 rng).1) result h)
      where
        again :
            Always
              (Low curve)
              (sign_loop left curve canonical priv_key z (generate_k_rfc6979 rng).1)
            → (result : Option Signed) → Low curve result
            → Always (Low curve) (elim result [
              | none ↦ sign_loop left curve canonical priv_key z (generate_k_rfc6979 rng).1
              | some signed ↦ pure (some signed)
            ])
        again rest none h = rest
        again rest (some signed) h = pure-Always h

-- A signature that `ecdsa_sign_digest` returns has a positive `r` and a positive `s` that is at
-- most half of the order, whatever the random words and the canonical test are; for a private key
-- and a digest of bytes, a table of points with reduced coordinates, on a curve that meets
-- `IsField` (an odd normalized prime between `2^256 - 2^224` and `2^256`, whose lowest limb is at
-- least 2 and at least `-a`, `-a` at most 3, and a normalized `b`) and `IsOrder` (a normalized
-- order between the same bounds whose lowest limb is at least 2, and which is one more than twice
-- the normalized `order_half`).
pub ecdsa_sign_digest-Low :
    (curve : Curve) (canonical : Canonical) (priv_key digest : List ℕ) (f : IsField curve)
    → IsOrder curve
    → IsTable curve f
    → All IsByte priv_key
    → All IsByte digest
    → Always (Low curve) (ecdsa_sign_digest curve canonical priv_key digest)
unfolding ecdsa_sign_digest
ecdsa_sign_digest-Low curve canonical priv_key digest f g t hp hd =
    sign_loop-Low curve g f t canonical priv_key (bn_read_be digest) hp
      (bytes-AtMost curve g digest hd) 10000 (init_rfc6979 priv_key digest)
