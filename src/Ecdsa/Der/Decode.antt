-- ===== src/Ecdsa/Der/Decode.antt =====
-- What `ecdsa_sig_to_der` writes, against a reader of DER.
use aex_cpp_sdk.Base.{ℕ, zero, suc, ◌+◌, ◌-◌, ◌*◌, ◌^◌, ◌≤◌, ◌<◌, ◌≡◌, refl, sym, ap, ◌∙◌, arith}
use aex_cpp_sdk.Base.{List, [], ◌∷◌, ◌++◌, Bool, true, false, Bool-cases, inl, inr}
use aex_cpp_sdk.Base.{
  ◌&&◌, ◌||◌, not, leb, ltb, ◌==◌, if◌then◌else◌, Option, none, some, u8, IsByte, All,
}
use aex_cpp_sdk.Base.{length, take, drop, get_or, length-take, length-append}
use aex_cpp_sdk.Base.{All-get_or, take-length-append, drop-length-append, append-nil}
use aex_cpp_sdk.Ecdsa.Der.{skip_zeros, integer_bytes, der_integer, ecdsa_sig_to_der}

-- The number that big-endian bytes stand for.
abbrev pub big_endian : List ℕ → ℕ
big_endian [] = 0
big_endian (b ∷ bytes) = b * 256 ^ length bytes + big_endian bytes

-- The content of a DER integer that is not negative: no byte could be left out.
abbrev pub is_minimal : List ℕ → Bool
is_minimal [] = false
is_minimal (b ∷ []) = ltb b 0x80
is_minimal (b ∷ c ∷ bytes) = ltb b 0x80 && (not (b == 0) || leb 0x80 c)

-- An integer, in the short form of the length, and the bytes after it.
abbrev pub read_integer : List ℕ → Option (ℕ × List ℕ)
read_integer [] = none
read_integer (tag ∷ []) = none
read_integer (tag ∷ len ∷ bytes) =
    if (tag == 0x02) && ltb len 0x80 && leb len (length bytes) && is_minimal (take len bytes)
    then some (big_endian (take len bytes), drop len bytes)
    else none

-- The second integer, and nothing after it.
abbrev pub read_last : ℕ → List ℕ → Option (ℕ × ℕ)
read_last r bytes = elim (read_integer bytes) [
  | none ↦ none
  | some (s, rest) ↦ if length rest == 0 then some (r, s) else none
]

-- A sequence of two integers.
abbrev pub read_signature : List ℕ → Option (ℕ × ℕ)
read_signature [] = none
read_signature (tag ∷ []) = none
read_signature (tag ∷ len ∷ bytes) =
    if (tag == 0x30) && ltb len 0x80 && (len == length bytes)
    then elim (read_integer bytes) [ none ↦ none | some (r, rest) ↦ read_last r rest ]
    else none

-- The content of an integer that stands for `n`.
record Content (bytes : List ℕ) (n : ℕ) : Type 0 where
  number : big_endian bytes ≡ n
  minimal : is_minimal bytes ≡ true
  few : length bytes ≤ 33

take-drop :
    (m i : ℕ) (xs : List ℕ)
    → i < length xs
    → take (suc m) (drop i xs) ≡ get_or xs i 0 ∷ take m (drop (suc i) xs)
take-drop m i [] h = absurd (omega arith)
take-drop m zero (x ∷ xs) h = refl
take-drop m (suc i) (x ∷ xs) h = take-drop m i xs (omega arith)

-- The bytes that are skipped are zero, and the one at the index is not, unless it is the end.
record Skipped (sig : List ℕ) (left i out : ℕ) : Type 0 where
  above : i ≤ out
  below : out ≤ i + left
  kept : big_endian (take (i + left - out) (drop out sig)) ≡ big_endian (take left (drop i sig))
  found : out < i + left → 0 < get_or sig out 0

same_bytes : (m n : ℕ) (xs : List ℕ) → m ≡ n → big_endian (take m xs) ≡ big_endian (take n xs)
same_bytes m n xs e = ap (λ (k : ℕ). big_endian (take k xs)) e

-- A zero byte at the front.
zero_byte :
    (sig : List ℕ) (left i : ℕ)
    → i < length sig
    → get_or sig i 0 ≡ 0
    → big_endian (take (suc left) (drop i sig)) ≡ big_endian (take left (drop (i + 1) sig))
zero_byte sig left i h e =
    let next : suc i ≡ i + 1 = omega arith in
    ap big_endian (take-drop left i sig h)
    ∙ ap
        (λ (b : ℕ).
          b * 256 ^ length (take left (drop (suc i) sig))
          + big_endian (take left (drop (suc i) sig)))
        e
    ∙ omega arith
    ∙ ap (λ (k : ℕ). big_endian (take left (drop k sig))) next

skip_zeros-Skipped :
    (sig : List ℕ) (left i : ℕ) → i + left ≤ length sig → Skipped sig left i (skip_zeros sig left i)
unfolding skip_zeros
skip_zeros-Skipped sig zero i h = record {
  above = omega arith;
  below = omega arith;
  kept = same_bytes (i + 0 - i) 0 (drop i sig) (omega arith);
  found = λ l. absurd (omega arith);
}
skip_zeros-Skipped sig (suc left) i h = elim (Bool-cases (get_or sig i 0 == 0)) [
  | inl e ↦
      let r = skip_zeros-Skipped sig left (i + 1) (omega arith) in
      let out = skip_zeros sig left (i + 1) in
      rw e (record {
        above = omega (arith, r.above);
        below = omega (arith, r.below);
        kept =
            same_bytes (i + suc left - out) (i + 1 + left - out) (drop out sig) (omega arith)
            ∙ r.kept
            ∙ sym (zero_byte sig left i (omega arith) (ground arith));
        found = λ l. r.found (omega arith);
      })
  | inr e ↦ rw e (record {
    above = omega arith;
    below = omega arith;
    kept = same_bytes (i + suc left - i) (suc left) (drop i sig) (omega arith);
    found = λ l. ground arith;
  })
]

-- A first byte that is not zero, with the zero before it that the code puts.
content :
    (d : ℕ) (t : List ℕ)
    → 0 < d
    → d < 256
    → length t ≤ 31
    → Content (if leb 0x80 d then 0x00 ∷ d ∷ t else d ∷ t) (big_endian (d ∷ t))
content d t pos byte few = elim (Bool-cases (leb 0x80 d)) [
  | inl high ↦ rw high (record { number = omega arith; minimal = rw high refl; few = omega arith })
  | inr low ↦ rw low (record { number = refl; minimal = is_low t low; few = omega arith })
]
  where
    is_low : (u : List ℕ) → leb 0x80 d ≡ false → is_minimal (d ∷ u) ≡ true
    is_low [] h = ground arith
    is_low (c ∷ u) h = ground arith

integer_bytes-Content :
    (sig : List ℕ) (start : ℕ)
    → All IsByte sig
    → start + 32 ≤ length sig
    → 0 < big_endian (take 32 (drop start sig))
    → Content (integer_bytes sig start) (big_endian (take 32 (drop start sig)))
unfolding integer_bytes
integer_bytes-Content sig start bytes long pos =
    let i = skip_zeros sig 32 start in
    let r = skip_zeros-Skipped sig 32 start long in
    let m = start + 32 - i - 1 in
    let inside : i < start + 32 = inside_of i r in
    let count : start + 32 - i ≡ suc m = omega arith in
    let body : take (start + 32 - i) (drop i sig) ≡ get_or sig i 0 ∷ take m (drop (suc i) sig) =
      ap (λ (k : ℕ). take k (drop i sig)) count ∙ take-drop m i sig (omega arith) in
    let c =
      content (get_or sig i 0) (take m (drop (suc i) sig)) (r.found inside)
        (All-get_or IsByte sig i 0 (omega arith) bytes)
        (omega (arith, length-take m (drop (suc i) sig), r.above)) in
    let number = ap big_endian (sym body) ∙ r.kept in
    rw body (record { number = c.number ∙ number; minimal = c.minimal; few = c.few })
  where
    inside_of : (i : ℕ) → Skipped sig 32 start i → i < start + 32
    inside_of i r = elim (Bool-cases (ltb i (start + 32))) [
      | inl h ↦ ground arith
      | inr h ↦
          let end : start + 32 - i ≡ 0 = ground (arith, r.below) in
          absurd (omega (arith, r.kept, same_bytes (start + 32 - i) 0 (drop i sig) end))
    ]

-- What is read of an integer and what follows it.
read_integer-append :
    (bytes rest : List ℕ) (n : ℕ)
    → Content bytes n
    → read_integer ((0x02 ∷ u8 (length bytes) ∷ bytes) ++ rest) ≡ some (n, rest)
read_integer-append bytes rest n c =
    let len : u8 (length bytes) ≡ length bytes = omega (arith, c.few) in
    let short : ltb (length bytes) 0x80 ≡ true = ground (arith, c.few) in
    let fits : leb (length bytes) (length (bytes ++ rest)) ≡ true =
      ground (arith, length-append bytes rest) in
    rw len (
      rw short (
        rw fits (
          rw (take-length-append bytes rest)
            (rw c.minimal (rw (drop-length-append bytes rest) (rw c.number refl))))))

read_last-integer :
    (r : ℕ) (bytes : List ℕ) (n : ℕ)
    → Content bytes n
    → read_last r (0x02 ∷ u8 (length bytes) ∷ bytes) ≡ some (r, n)
read_last-integer r bytes n c =
    let whole : (0x02 ∷ u8 (length bytes) ∷ bytes) ++ [] ≡ 0x02 ∷ u8 (length bytes) ∷ bytes =
      append-nil (0x02 ∷ u8 (length bytes) ∷ bytes) in
    ap (read_last r) (sym whole) ∙ ap (after r) (read_integer-append bytes [] n c)
  where
    after : ℕ → Option (ℕ × List ℕ) → Option (ℕ × ℕ)
    after r o = elim o [
      | none ↦ none
      | some (s, rest) ↦ if length rest == 0 then some (r, s) else none
    ]

-- The sequence of two integers.
sequence :
    (a b : List ℕ) (r s : ℕ)
    → Content a r
    → Content b s
    → read_signature (
        0x30
        ∷ u8 (length a + length b + 4)
        ∷ ((0x02 ∷ u8 (length a) ∷ a) ++ (0x02 ∷ u8 (length b) ∷ b)))
      ≡ some (r, s)
sequence a b r s c d =
    let y = 0x02 ∷ u8 (length b) ∷ b in
    let len : u8 (length a + length b + 4) ≡ length a + length b + 4 =
      omega (arith, c.few, d.few) in
    let short : ltb (length a + length b + 4) 0x80 ≡ true = ground (arith, c.few, d.few) in
    let whole : (length a + length b + 4 == suc (suc (length (a ++ y)))) ≡ true =
      ground (arith, length-append a y) in
    let rest = ap after (read_integer-append a y r c) ∙ read_last-integer r b s d in
    rw len (rw short (rw whole rest))
  where
    after : Option (ℕ × List ℕ) → Option (ℕ × ℕ)
    after o = elim o [ none ↦ none | some (n, rest) ↦ read_last n rest ]

-- A reader of DER that takes only minimal integers reads from the output of `ecdsa_sig_to_der` the
-- two numbers of the signature, and the result is the length of the output and at most 72; for at
-- least 64 bytes and two numbers that are not zero.
pub ecdsa_sig_to_der_lem :
    (sig : List ℕ)
    → All IsByte sig
    → 64 ≤ length sig
    → 0 < big_endian (take 32 sig)
    → 0 < big_endian (take 32 (drop 32 sig))
    → let (der, len) = ecdsa_sig_to_der sig in
      (read_signature der ≡ some (big_endian (take 32 sig), big_endian (take 32 (drop 32 sig))))
      × (len ≡ length der)
      × (len ≤ 72)
unfolding ecdsa_sig_to_der der_integer
ecdsa_sig_to_der_lem sig bytes long pos_r pos_s =
    let a = integer_bytes-Content sig 0 bytes (omega arith) pos_r in
    let b = integer_bytes-Content sig 32 bytes (omega arith) pos_s in
    (
      sequence (integer_bytes sig 0) (integer_bytes sig 32) (big_endian (take 32 sig))
          (big_endian (take 32 (drop 32 sig))) a b,
      omega (arith, a.few, b.few, length-append (integer_bytes sig 0) (der_integer sig 32)),
      omega (arith, a.few, b.few),
    )
