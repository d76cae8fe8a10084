-- ===== src/Bech32/Codec.antt =====
-- `Bech32::encode` and `Bech32::decode` of src/Bech32.cpp.
pub mod Scanning
pub mod RoundTrip
use aex_cpp_sdk.Base.{ℕ, suc, ◌+◌, ◌-◌, List, [], ◌∷◌, ◌++◌, map, Bool, true, false, not}
use aex_cpp_sdk.Base.{
  ◌&&◌, ◌||◌, ltb, leb, ◌==◌, if◌then◌else◌, Option, none, some, length, take, drop,
}
use aex_cpp_sdk.Bech32.Charset.{charset_at, charset_rev_at, lc}
use aex_cpp_sdk.Bech32.Checksum.{verify_checksum, create_checksum}

-- `encode`.
unfoldable pub encode : List ℕ → List ℕ → List ℕ
encode hrp values = hrp ++ (b'1' ∷ map charset_at (values ++ create_checksum hrp values))

-- The locals of the first loop of `decode`.
pub record Scan : Type 0 where
  pub lower : Bool
  pub upper : Bool
  pub ok : Bool

-- The body of that loop on one character.
unfoldable pub scan_char : Scan → ℕ → Scan
scan_char s c = record {
  lower = s.lower || (leb b'a' c && leb c b'z');
  upper = s.upper || (leb b'A' c && leb c b'Z');
  ok = s.ok && not (ltb c 33 || ltb 126 c);
}

-- The loop, which stops once `ok` is false.
unfoldable pub scan : Scan → List ℕ → Scan
scan s [] = s
scan s (c ∷ cs) = let rest = scan (scan_char s c) cs in if s.ok then rest else s

-- `str.rfind(c)`; `none` is `npos`.
unfoldable pub rfind : ℕ → List ℕ → Option ℕ
rfind c [] = none
rfind c (x ∷ xs) = elim (rfind c xs) [
  | some i ↦ some (suc i)
  | none ↦ if x == c then some 0 else none
]

-- The loop that fills `values`, and the `ok` that it leaves.
unfoldable pub read_values : Bool → List ℕ → Bool × List ℕ
read_values ok [] = (ok, [])
read_values ok (c ∷ cs) =
    let v = charset_rev_at c in
    let (ok', vs) = read_values (if v == 255 then false else ok) cs in (ok', v ∷ vs)

-- The pair of empty collections.
abbrev pub failure : List ℕ × List ℕ
failure = ([], [])

-- The part of `decode` that follows the tests on the string, with the separator at `pos`.
unfoldable pub decode_at : List ℕ → ℕ → List ℕ × List ℕ
decode_at str pos =
    let (ok, values) = read_values true (drop (suc pos) str) in
    let hrp = map lc (take pos str) in
    if ok && verify_checksum hrp values then (hrp, take (length values - 6) values) else failure

-- `decode`.
unfoldable pub decode : List ℕ → List ℕ × List ℕ
decode str =
    let s = scan (record { lower = false; upper = false; ok = true }) str in
    let ok = s.ok && not (s.lower && s.upper) in
    elim (rfind b'1' str) [
      | none ↦ failure
      | some pos ↦
          if ok && (leb (length str) 90 && (leb 1 pos && leb (pos + 7) (length str)))
          then decode_at str pos
          else failure
    ]
