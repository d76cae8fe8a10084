-- ===== src/Bech32/Codec/Scanning.antt =====
-- The parts of `decode` on text that `encode` could have written: the scan, the separator, the values.
use aex_cpp_sdk.Base.{ℕ, ◌≤◌, ◌<◌, ◌≡◌, ◌≢◌, refl, ap₂, arith, ◌⊎◌}
use aex_cpp_sdk.Base.{
  List, [], ◌∷◌, ◌++◌, map, length, All, Bool, true, false, ◌&&◌, ◌||◌, not, leb, ltb, ◌==◌,
}
use aex_cpp_sdk.Base.{holds_below, holds_below-at, some, none}
use aex_cpp_sdk.Bech32.Charset.{charset_at, charset_rev_at, lc}
use aex_cpp_sdk.Bech32.Codec.{Scan, scan_char, scan, rfind, read_values}

-- A printable ASCII character that is no capital letter.
pub record IsPlain (c : ℕ) : Type 0 where
  pub above : 33 ≤ c
  pub below : c ≤ 126
  pub not_capital : (c < b'A') ⊎ (b'Z' < c)

scan_char-IsPlain :
    (s : Scan) (c : ℕ)
    → IsPlain c
    → s.ok ≡ true
    → s.upper ≡ false
    → ((scan_char s c).ok ≡ true) × ((scan_char s c).upper ≡ false)
unfolding scan_char
scan_char-IsPlain s c p h k = ground arith

-- The scan of plain text finds no capital and nothing out of range.
pub scan-IsPlain :
    (s : Scan) (str : List ℕ)
    → All IsPlain str
    → s.ok ≡ true
    → s.upper ≡ false
    → ((scan s str).ok ≡ true) × ((scan s str).upper ≡ false)
unfolding scan
scan-IsPlain s [] p h k = (h, k)
scan-IsPlain s (c ∷ cs) (p, ps) h k =
    let step = scan_char-IsPlain s c p h k in
    simp h (scan-IsPlain (scan_char s c) cs ps step.0 step.1)

pub lc-IsPlain : (c : ℕ) → IsPlain c → lc c ≡ c
unfolding lc
lc-IsPlain c p = ground arith

pub map-lc-IsPlain : (cs : List ℕ) → All IsPlain cs → map lc cs ≡ cs
map-lc-IsPlain [] p = refl
map-lc-IsPlain (c ∷ cs) (p, ps) = ap₂ ◌∷◌ (lc-IsPlain c p) (map-lc-IsPlain cs ps)

-- What the tables say of each digit.
charset_ok : ℕ → Bool
charset_ok v =
    let c = charset_at v in
    ((leb 33 c && leb c 126) && (ltb c b'A' || ltb b'Z' c))
    && (not (c == b'1') && (charset_rev_at c == v))

charset_table : holds_below charset_ok 32 ≡ true
unfolding holds_below charset_ok charset_at charset_rev_at
charset_table = refl

charset_entry : (v : ℕ) → v < 32 → charset_ok v ≡ true
charset_entry v h = holds_below-at charset_ok 32 v charset_table h

pub charset_at-IsPlain : (v : ℕ) → v < 32 → IsPlain (charset_at v)
charset_at-IsPlain v h = unfold charset_ok in ground (arith, charset_entry v h)

pub charset_at-ne-separator : (v : ℕ) → v < 32 → charset_at v ≢ b'1'
charset_at-ne-separator v h = unfold charset_ok in ground (arith, charset_entry v h)

-- The decoding table undoes the encoding table.
pub charset_rev_at-charset_at : (v : ℕ) → v < 32 → charset_rev_at (charset_at v) ≡ v
charset_rev_at-charset_at v h = unfold charset_ok in ground (arith, charset_entry v h)

pub charset-All :
    (vs : List ℕ)
    → All (λ v. v < 32) vs
    → All IsPlain (map charset_at vs) × All (λ c. c ≢ b'1') (map charset_at vs)
charset-All [] h = (tt, tt)
charset-All (v ∷ vs) (h, hs) =
    let rest = charset-All vs hs in
    ((charset_at-IsPlain v h, rest.0), (charset_at-ne-separator v h, rest.1))

-- The last separator stands before what has none.
rfind-none : (c : ℕ) (xs : List ℕ) → All (λ x. x ≢ c) xs → rfind c xs ≡ none
unfolding rfind
rfind-none c [] h = refl
rfind-none c (x ∷ xs) (h, hs) = rw (rfind-none c xs hs) (ground arith)

pub rfind-append :
    (c : ℕ) (xs ys : List ℕ) → All (λ y. y ≢ c) ys → rfind c (xs ++ (c ∷ ys)) ≡ some (length xs)
unfolding rfind
rfind-append c [] ys h = rw (rfind-none c ys h) (ground arith)
rfind-append c (x ∷ xs) ys h = rw (rfind-append c xs ys h) refl

pub read_values-charset_at :
    (vs : List ℕ) → All (λ v. v < 32) vs → read_values true (map charset_at vs) ≡ (true, vs)
unfolding read_values
read_values-charset_at [] h = refl
read_values-charset_at (v ∷ vs) (h, hs) =
    rw (charset_rev_at-charset_at v h, valid, read_values-charset_at vs hs) refl
  where
    valid : (v == 255) ≡ false
    valid = ground arith
