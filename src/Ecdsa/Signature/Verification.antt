-- ===== src/Ecdsa/Signature/Verification.antt =====
-- What an accepted signature satisfies.
use aex_cpp_sdk.Base.{
  ℕ, ◌<◌, ◌≡◌, ◌≢◌, ◌⊎◌, All, IsByte, sym, arith, List, false, Bool-cases, inl, inr,
}
use aex_cpp_sdk.Base.{some, Option-cases, drop, ltb, ◌==◌, ◌||◌, not}
use aex_cpp_sdk.Bignum.Value.{value, IsBignum}
use aex_cpp_sdk.Bignum.Bytes.{bn_read_be}
use aex_cpp_sdk.Bignum.Compare.{bn_is_zero, bn_is_less}
use aex_cpp_sdk.Bignum.Compare.Less.{bn_is_less_lem}
use aex_cpp_sdk.Bignum.Compare.Tests.{bn_is_zero_lem}
use aex_cpp_sdk.Ecdsa.Curve.{Point, Curve}
use aex_cpp_sdk.Bignum.Bytes.Bounds.{bn_read_be-bound, bytes_from}
use aex_cpp_sdk.Ecdsa.Jacobian.Results.{Always, pure-Always, all-Always}
use aex_cpp_sdk.Ecdsa.Keys.{read_point}
use aex_cpp_sdk.Ecdsa.Signature.{ecdsa_verify_digest}

-- The test of the ranges.
ranges :
    (r s n : ℕ)
    → ((r == 0) || (s == 0) || not (ltb r n) || not (ltb s n)) ≡ false
    → (r ≢ 0) × (r < n) × (s ≢ 0) × (s < n)
ranges r s n h = ground arith

-- Numbers that a signature may have, and a key that was read.
pub record IsAccepted (curve : Curve) (pub_key sig : List ℕ) : Type 0 where
  pub r_positive : value (bn_read_be sig) ≢ 0
  pub r_below : value (bn_read_be sig) < value curve.order
  pub s_positive : value (bn_read_be (drop 32 sig)) ≢ 0
  pub s_below : value (bn_read_be (drop 32 sig)) < value curve.order
  pub key : Point
  pub readable : read_point curve pub_key ≡ some key

-- A result that is not 0, or an accepted signature.
abbrev pub Verdict : Curve → List ℕ → List ℕ → ℕ → Type 0
Verdict curve pub_key sig c = (c ≢ 0) ⊎ IsAccepted curve pub_key sig

-- If `ecdsa_verify_digest` returns, it returns a code other than 0, or the key could be read and
-- `r` and `s` are positive and below the order, which is normalized; for a signature of bytes.
pub ecdsa_verify_digest_lem :
    (curve : Curve) (pub_key sig digest : List ℕ)
    → IsBignum curve.order
    → All IsByte sig
    → Always (Verdict curve pub_key sig) (ecdsa_verify_digest curve pub_key sig digest)
unfolding ecdsa_verify_digest
ecdsa_verify_digest_lem curve pub_key sig digest n h =
    let r = bn_read_be sig in
    let s = bn_read_be (drop 32 sig) in
    let p = (bn_read_be-bound sig h).0 in
    let q = (bn_read_be-bound (drop 32 sig) (bytes_from 32 sig h)).0 in
    let bad =
      bn_is_zero r
      || bn_is_zero s
      || not (bn_is_less r curve.order)
      || not (bn_is_less s curve.order) in
    elim (Option-cases (read_point curve pub_key)) [
      | inl e ↦ rw (ecdsa_verify_digest, e) (pure-Always (inl (λ z. absurd (omega (arith, z)))))
      | inr (key, e) ↦ elim (Bool-cases bad) [
        | inl b ↦
            rw (ecdsa_verify_digest, e) (rw b (pure-Always (inl (λ z. absurd (omega (arith, z))))))
        | inr b ↦
            let inside = ranges (value r) (value s) (value curve.order) (
              rw (sym (bn_is_zero_lem r)) (
                rw (sym (bn_is_zero_lem s)) (
                  rw (sym (bn_is_less_lem r curve.order p n))
                    (rw (sym (bn_is_less_lem s curve.order q n)) b)))) in
            rw (ecdsa_verify_digest, e)
              (rw b (
                all-Always _ (λ c. inr (record {
                  r_positive = inside.0;
                  r_below = inside.1;
                  s_positive = inside.2;
                  s_below = inside.3;
                  key = key;
                  readable = e;
                }))))
      ]
    ]
