-- ===== src/Ecdsa/Scalar/Invariant.antt =====
-- The scalar multiplications give points with coordinates less than the prime.
use aex_cpp_sdk.Ecdsa.Scalar.{
  pred32, sign_mask, multiples, Digits, next_bits, multiply_round, multiply_loop, multiply_from,
  point_multiply, scalar_loop, scalar_from, scalar_multiply,
}
use aex_cpp_sdk.Ecdsa.Jacobian.{Jacobian, conditional_negate}
use aex_cpp_sdk.Base.{ℕ, zero, suc, ◌+◌, ◌-◌, ◌%◌, ◌^◌, ◌<◌, ◌≡◌, refl, ap₂, arith}
use aex_cpp_sdk.Base.{List, [], ◌∷◌, All, Bool-cases, inl, inr, ltb}
use aex_cpp_sdk.Base.{get_or, u32, bit_and, bit_and-low, bit_or, bit_xor, ◌<<◌, ◌>>◌}
use aex_cpp_sdk.Bignum.Value.{value, IsBignum, AtMost}
use aex_cpp_sdk.Bignum.Reduce.FastMod.{IsPrimeSize}
use aex_cpp_sdk.Ecdsa.Curve.{Point, Curve}
use aex_cpp_sdk.Ecdsa.Curve.Field.{IsField, IsPoint}
use aex_cpp_sdk.Ecdsa.Point.{infinity}
use aex_cpp_sdk.Ecdsa.Point.Invariant.{infinity-IsPoint, point_double-IsPoint, point_add-IsPoint}
use aex_cpp_sdk.Ecdsa.Jacobian.Invariant.{
  IsJacobian, point_jacobian_add-IsJacobian, point_jacobian_double-IsJacobian,
}
use aex_cpp_sdk.Ecdsa.Jacobian.Negation.{IsMask, conditional_negate-AtMost}
use aex_cpp_sdk.Ecdsa.Scalar.Odd.{make_odd_lem}
use aex_cpp_sdk.Ecdsa.Jacobian.Results.{Always, pure-Always, bind-Always, if-Always}
use aex_cpp_sdk.Ecdsa.Jacobian.Nonces.{curve_to_jacobian-IsJacobian, jacobian_to_curve-IsPoint}

module _ (curve : Curve) (f : IsField curve) where
  abbrev prime : List ℕ
  prime = curve.prime

  abbrev v : IsPrimeSize prime
  v = f.prime

  -- A mask made of a bit.
  pred32-IsMask : (b : ℕ) → b < 2 → IsMask (pred32 b)
  pred32-IsMask zero h = inr refl
  pred32-IsMask (suc zero) h = inl refl
  pred32-IsMask (suc (suc b)) h = absurd (omega arith)

  low_bit-IsMask : (b : ℕ) → IsMask (pred32 (bit_and b 1))
  low_bit-IsMask b = pred32-IsMask (bit_and b 1) (omega (arith, bit_and-low 1 b))

  sign_mask-IsMask : (bits : ℕ) → bits < 32 → IsMask (sign_mask bits)
  unfolding sign_mask
  sign_mask-IsMask bits h = pred32-IsMask (bits >> 4) (omega arith)

  bit_xor-IsMask : (a b : ℕ) → IsMask a → IsMask b → IsMask (bit_xor a b)
  bit_xor-IsMask a b (inl p) (inl q) = inl (ap₂ bit_xor p q)
  bit_xor-IsMask a b (inl p) (inr q) = inr (ap₂ bit_xor p q)
  bit_xor-IsMask a b (inr p) (inl q) = inr (ap₂ bit_xor p q)
  bit_xor-IsMask a b (inr p) (inr q) = inl (ap₂ bit_xor p q)

  negate :
      {cond : ℕ} {a : List ℕ}
      → IsMask cond
      → AtMost 2 prime a
      → AtMost 2 prime (conditional_negate cond a prime)
  negate {cond} {a} m p = conditional_negate-AtMost cond a prime m v p

  -- A table of points.
  abbrev pub IsTable : Type 0
  IsTable = (i j : ℕ) → IsPoint curve (curve.cp i j)

  scalar_loop-IsJacobian :
      (left i : ℕ) (a : List ℕ) (p : Jacobian)
      → IsTable
      → IsJacobian curve p
      → IsJacobian curve (scalar_loop left i curve a p).1
  unfolding scalar_loop
  scalar_loop-IsJacobian zero i a p t q = q
  scalar_loop-IsJacobian (suc left) i a p t q = scalar_loop-IsJacobian left (i + 1) _ _ t (
      point_jacobian_add-IsJacobian curve f _ _ (t _ _)
        (record { x = q.x; y = negate (low_bit-IsMask _) q.y; z = q.z }))

  scalar_from-IsPoint :
      (a : List ℕ) (p : Jacobian)
      → IsTable
      → IsJacobian curve p
      → IsPoint curve (scalar_from curve a p)
  unfolding scalar_from
  scalar_from-IsPoint a p t q =
      let r = scalar_loop-IsJacobian 63 1 a p t q in
      jacobian_to_curve-IsPoint curve f _
        (record { x = r.x; y = negate (low_bit-IsMask _) r.y; z = r.z })

  -- A point that `scalar_multiply` returns has normalized coordinates less than the prime, whatever
  -- the scalar and the random words are, for a table of points with reduced coordinates, on a curve
  -- that meets `IsField` (an odd normalized prime between `2^256 - 2^224` and `2^256`, whose lowest
  -- limb is at least 2 and at least `-a`, `-a` at most 3, and a normalized `b`).
  pub scalar_multiply-IsPoint :
      (k : List ℕ) → IsTable → Always (IsPoint curve) (scalar_multiply curve k)
  unfolding scalar_multiply
  scalar_multiply-IsPoint k t = if-Always _ (pure-Always (infinity-IsPoint curve f)) (
      bind-Always (curve_to_jacobian-IsJacobian curve f _ (t _ _))
        (λ start s. pure-Always (scalar_from-IsPoint _ start t s)))

  entry : (i : ℕ) (ps : List Point) → All (IsPoint curve) ps → IsPoint curve (get_or ps i infinity)
  entry i [] h = infinity-IsPoint curve f
  entry zero (p ∷ ps) (h, hs) = h
  entry (suc i) (p ∷ ps) (h, hs) = entry i ps hs

  multiples-IsPoint :
      (n : ℕ) (p2 p : Point)
      → IsPoint curve p2
      → IsPoint curve p
      → All (IsPoint curve) (multiples curve p2 n p)
  unfolding multiples
  multiples-IsPoint zero p2 p h q = (q, tt)
  multiples-IsPoint (suc n) p2 p h q =
      (q, multiples-IsPoint n p2 _ h (point_add-IsPoint curve f _ _ q h))

  next_bits-lt : (a : List ℕ) (s : Digits) → (next_bits a s).0 < 32
  unfolding next_bits
  next_bits-lt a s = elim (Bool-cases (ltb s.ashift 4)) [
    | inl e ↦ rw e (
        low5 (
          bit_or (u32 (s.abits << (4 - s.ashift)))
            (get_or a (s.aptr - 1) 0 >> (s.ashift + 30 - 4))))
    | inr e ↦ rw e (low5 (s.abits >> (s.ashift - 4)))
  ]
    where
      low5 : (x : ℕ) → bit_and x 31 < 32
      low5 x = omega (arith, bit_and-low 5 x)

  -- What the loop of `point_multiply` keeps.
  record IsState (s : Digits) : Type 0 where
    sign : IsMask s.sign
    jres : IsJacobian curve s.jres

  multiply_round-IsState :
      (a : List ℕ) (pmult : List Point) (s : Digits)
      → All (IsPoint curve) pmult
      → IsState s
      → IsState (multiply_round curve a pmult s)
  unfolding multiply_round
  multiply_round-IsState a pmult s t h =
      let j1 = point_jacobian_double-IsJacobian curve f _ h.jres in
      let j2 = point_jacobian_double-IsJacobian curve f _ j1 in
      let j3 = point_jacobian_double-IsJacobian curve f _ j2 in
      let j4 = point_jacobian_double-IsJacobian curve f _ j3 in
      let nsign = sign_mask-IsMask (next_bits a s).0 (next_bits-lt a s) in
      record {
        sign = nsign;
        jres =
            point_jacobian_add-IsJacobian curve f _ _ (entry _ pmult t)
              (record { x = j4.x; y = j4.y; z = negate (bit_xor-IsMask _ _ h.sign nsign) j4.z });
      }

  multiply_loop-IsState :
      (left : ℕ) (a : List ℕ) (pmult : List Point) (s : Digits)
      → All (IsPoint curve) pmult
      → IsState s
      → IsState (multiply_loop left curve a pmult s)
  unfolding multiply_loop
  multiply_loop-IsState zero a pmult s t h = h
  multiply_loop-IsState (suc left) a pmult s t h =
      multiply_loop-IsState left a pmult _ t (multiply_round-IsState a pmult s t h)

  multiply_from-IsPoint :
      (a : List ℕ) (pmult : List Point) (bits : ℕ) (start : Jacobian)
      → All (IsPoint curve) pmult
      → bits < 32
      → IsJacobian curve start
      → IsPoint curve (multiply_from curve a pmult bits start)
  unfolding multiply_from
  multiply_from-IsPoint a pmult bits start t h q =
      let s =
        multiply_loop-IsState 63 a pmult _ t
          (record { sign = sign_mask-IsMask bits h; jres = q }) in
      jacobian_to_curve-IsPoint curve f _
        (record { x = s.jres.x; y = s.jres.y; z = negate s.sign s.jres.z })

  -- A point that `point_multiply` returns has normalized coordinates less than the prime, whatever
  -- the random words are, for a normalized scalar below `2^256`, an odd normalized order below
  -- `2^256`, and a point with reduced coordinates, on a curve that meets `IsField` (an odd
  -- normalized prime between `2^256 - 2^224` and `2^256`, whose lowest limb is at least 2 and at
  -- least `-a`, `-a` at most 3, and a normalized `b`).
  pub point_multiply-IsPoint :
      (k : List ℕ) (p : Point)
      → IsBignum k
      → IsBignum curve.order
      → value k < 2 ^ 256
      → value curve.order < 2 ^ 256
      → value curve.order % 2 ≡ 1
      → IsPoint curve p
      → Always (IsPoint curve) (point_multiply curve k p)
  unfolding point_multiply
  point_multiply-IsPoint k p hk ho small below odd q =
      let top = make_odd_lem curve k hk ho small below odd in
      let table = multiples-IsPoint 7 _ p (point_double-IsPoint curve f p q) q in
      if-Always _ (pure-Always (infinity-IsPoint curve f)) (
        bind-Always (curve_to_jacobian-IsJacobian curve f _ (entry _ _ table)) (λ start s.
          pure-Always (multiply_from-IsPoint _ _ _ start table (omega (arith, top.2)) s)))
