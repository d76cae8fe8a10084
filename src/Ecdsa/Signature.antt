-- ===== src/Ecdsa/Signature.antt =====
-- Signing, verification and recovery of the public key.
pub mod Verification
pub mod Signing
use aex_cpp_sdk.Base.{
  ℕ, zero, suc, ◌+◌, List, [], ◌∷◌, ◌++◌, Bool, true, false, ◌||◌, ◌&&◌, not, ◌==◌, if◌then◌else◌,
  drop, get_or,
}
use aex_cpp_sdk.Base.{Option, none, some, bit_and, bit_or, bit_xor}
use aex_cpp_sdk.Bignum.Bytes.{bn_read_be, bn_write_be}
use aex_cpp_sdk.Bignum.Compare.{bn_is_zero, bn_is_less, bn_is_equal}
use aex_cpp_sdk.Bignum.Arith.{bn_add, bn_subtract, bn_subtractmod}
use aex_cpp_sdk.Bignum.Reduce.{bn_fast_mod, bn_mod}
use aex_cpp_sdk.Bignum.Multiply.{bn_multiply}
use aex_cpp_sdk.Bignum.Power.{bn_inverse}
use aex_cpp_sdk.Ecdsa.Curve.{Point, Curve}
use aex_cpp_sdk.Ecdsa.Point.{point_add}
use aex_cpp_sdk.Ecdsa.Jacobian.{Random, ◌>>=◌, pure, generate_k_random}
use aex_cpp_sdk.Ecdsa.Scalar.{point_multiply, scalar_multiply}
use aex_cpp_sdk.Ecdsa.Keys.{uncompress_coords, validated, read_point, uncompressed_bytes}
use aex_cpp_sdk.Ecdsa.Deterministic.{Rfc6979, init_rfc6979, generate_k_rfc6979}

-- The optional test of a signature and its recovery byte.
abbrev pub Canonical : Type 0
Canonical = Option (ℕ → List ℕ → Bool)

-- The 64 bytes of a signature and its recovery byte.
abbrev pub Signed : Type 0
Signed = List ℕ × ℕ

-- Zero, or not below the order of the curve.
unfoldable pub out_of_range : Curve → List ℕ → Bool
out_of_range curve n = not (bn_is_less n curve.order) || bn_is_zero n

-- `r` and the recovery byte, from `k * G`.
unfoldable pub r_part : Curve → Point → List ℕ × ℕ
r_part curve r =
    let by = bit_and (get_or r.y 0 0) 1 in
    if bn_is_less r.x curve.order then (r.x, by) else (bn_subtract r.x curve.order, bit_or by 2)

-- `k^-1 (r priv + z)`, computed with the factor `randk`.
unfoldable pub s_part : Curve → List ℕ → List ℕ → List ℕ → List ℕ → List ℕ → List ℕ
s_part curve priv_key z k r randk =
    let order = curve.order in
    let inv = bn_inverse (bn_multiply randk k order) order in
    let sum = bn_add (bn_multiply r (bn_read_be priv_key) order) z in
    bn_mod (bn_multiply randk (bn_multiply inv sum order) order) order

-- `S` in the lower half, with the recovery byte.
unfoldable pub lower_half : Curve → List ℕ → ℕ → List ℕ × ℕ
lower_half curve s by =
    if bn_is_less curve.order_half s then (bn_subtract curve.order s, bit_xor by 1) else (s, by)

unfoldable pub is_accepted : Canonical → ℕ → List ℕ → Bool
is_accepted none by sig = true
is_accepted (some is_canonical) by sig = is_canonical by sig

-- A round of `ecdsa_sign_digest` from the point `k * G` and `randk` on. `none` is `continue`.
unfoldable pub signature_of :
    Curve → Canonical → List ℕ → List ℕ → List ℕ → List ℕ × ℕ → List ℕ → Option Signed
signature_of curve canonical priv_key z k (r, by) randk =
    let s = s_part curve priv_key z k r randk in
    let (low, by') = lower_half curve s by in
    let sig = bn_write_be r ++ bn_write_be low in
    if bn_is_zero s then none else if is_accepted canonical by' sig then some (sig, by') else none

-- The round after the computation of `k * G`.
unfoldable pub finish_round :
    Curve → Canonical → List ℕ → List ℕ → List ℕ → Point → Random (Option Signed)
finish_round curve canonical priv_key z k point =
    let (r, by) = r_part curve point in
    let run = generate_k_random curve.order >>= λ randk.
    pure (signature_of curve canonical priv_key z k (r, by) randk) in
    if bn_is_zero r then pure none else run

-- A round for a given `k`.
unfoldable pub sign_round : Curve → Canonical → List ℕ → List ℕ → List ℕ → Random (Option Signed)
sign_round curve canonical priv_key z k =
    let run =
      scalar_multiply curve k >>= λ point. finish_round curve canonical priv_key z k point in
    if bn_is_zero k || not (bn_is_less k curve.order) then pure none else run

-- At most so many rounds; `none` is the result -1.
unfoldable pub sign_loop :
    ℕ → Curve → Canonical → List ℕ → List ℕ → Rfc6979 → Random (Option Signed)
sign_loop zero curve canonical priv_key z rng = pure none
sign_loop (suc left) curve canonical priv_key z rng =
    let (k, rng') = generate_k_rfc6979 rng in
    sign_round curve canonical priv_key z k >>= λ result. elim result [
      | none ↦ sign_loop left curve canonical priv_key z rng'
      | some signed ↦ pure (some signed)
    ]

-- `ecdsa_sign_digest`.
unfoldable pub ecdsa_sign_digest : Curve → Canonical → List ℕ → List ℕ → Random (Option Signed)
ecdsa_sign_digest curve canonical priv_key digest =
    sign_loop 10000 curve canonical priv_key (bn_read_be digest) (init_rfc6979 priv_key digest)

-- The last comparison of `ecdsa_verify_digest`, for `pub = s * pub` and `res = z * G`.
unfoldable pub verdict : Curve → List ℕ → Point → Point → ℕ
verdict curve r res pub_point =
    let sum = point_add curve pub_point res in
    if bn_is_equal (bn_mod sum.x curve.order) r then 0 else 5

-- `ecdsa_verify_digest` for a point and numbers in range.
unfoldable pub verify_point : Curve → Point → List ℕ → List ℕ → List ℕ → Random ℕ
verify_point curve pub_point r s digest =
    let order = curve.order in
    let inv = bn_inverse s order in
    let z = bn_mod (bn_multiply inv (bn_read_be digest) order) order in
    let factor = bn_mod (bn_multiply r inv order) order in
    let run = scalar_multiply curve z >>= λ res.
    point_multiply curve factor pub_point >>= λ multiple. pure (verdict curve r res multiple) in
    if bn_is_zero z then pure 3 else run

-- `ecdsa_verify_digest`.
unfoldable pub ecdsa_verify_digest : Curve → List ℕ → List ℕ → List ℕ → Random ℕ
ecdsa_verify_digest curve pub_key sig digest =
    let r = bn_read_be sig in
    let s = bn_read_be (drop 32 sig) in
    elim (read_point curve pub_key) [
      | none ↦ pure 1
      | some p ↦
          if bn_is_zero r
            || bn_is_zero s
            || not (bn_is_less r curve.order)
            || not (bn_is_less s curve.order)
          then pure 2
          else verify_point curve p r s digest
    ]

-- `R`, from `r` and the recovery id.
unfoldable pub nonce_point : Curve → List ℕ → ℕ → Option Point
nonce_point curve r recid =
    let large = not (bit_and recid 2 == 0) in
    let x = if large then bn_add r curve.order else r in
    let cp : Point = record { x = x; y = uncompress_coords curve (bit_and recid 1) x } in
    if large && not (bn_is_less x curve.prime) then none else validated curve cp

-- `r^-1 (s R - digest G)`.
unfoldable pub recovered : Curve → List ℕ → List ℕ → List ℕ → Point → Random (List ℕ)
recovered curve r s digest cp =
    let order = curve.order in
    let e = bn_mod (bn_fast_mod (bn_subtractmod order (bn_read_be digest) order) order) order in
    point_multiply curve s cp >>= λ sr. scalar_multiply curve e >>= λ cp2.
    point_multiply curve (bn_inverse r order) (point_add curve cp2 sr) >>= λ p.
    pure (uncompressed_bytes p)

-- `ecdsa_recover_pub_from_sig`: the key, or `none` for the result 1.
unfoldable pub ecdsa_recover_pub_from_sig : Curve → List ℕ → List ℕ → ℕ → Random (Option (List ℕ))
ecdsa_recover_pub_from_sig curve sig digest recid =
    let r = bn_read_be sig in
    let s = bn_read_be (drop 32 sig) in
    if out_of_range curve r
    then pure none
    else if out_of_range curve s
    then pure none
    else elim (nonce_point curve r recid) [
      | none ↦ pure none
      | some cp ↦ recovered curve r s digest cp >>= λ key. pure (some key)
    ]
