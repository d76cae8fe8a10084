-- ===== src/Bignum/Bytes/Read.antt =====
-- `bn_read_be` and `bn_write_be` keep the number.
use aex_cpp_sdk.Base.{ℕ, zero, suc, ◌+◌, ◌-◌, ◌*◌, ◌%◌, ◌^◌, ◌<◌, ◌≡◌, refl, ap, ◌∙◌}
use aex_cpp_sdk.Base.{arith, length, IsU32, bit_and, bit_and-low, bit_or, bit_or-parts}
use aex_cpp_sdk.Base.{bit_or_comm, u32, ◌<<◌, ◌>>◌}
use mathlib.Core.Path.{subst}
use native.Mathlib.Nat.{pow-suc, pow-le-pow_right, le_trans}
use aex_cpp_sdk.Bignum.Value.{value, IsNormal, IsBignum}
use aex_cpp_sdk.Bignum.Arith.Sums.{limb-lt}
use aex_cpp_sdk.Bignum.Bytes.{read_loop}

-- One round: the word goes in above `2 i` bits, a limb comes out, and `2 i + 2` bits stay.
abbrev Round : ℕ → ℕ → ℕ → Type 0
Round i temp limb =
    (bit_and (bit_or temp (u32 (limb << (2 * i)))) 0x3FFFFFFF + 2 ^ 30 * (limb >> (30 - 2 * i))
      ≡ temp + 2 ^ (2 * i) * limb)
    × (limb >> (30 - 2 * i) < 2 ^ (2 * i + 2))

-- The word above the bits that wait.
above_temp :
    (k temp limb : ℕ) {shifted : ℕ}
    → temp < 2 ^ k
    → shifted ≡ limb * 2 ^ k
    → bit_or temp shifted ≡ limb * 2 ^ k + temp
above_temp k temp limb {shifted} h e = bit_or_comm temp shifted ∙ bit_or-parts k limb temp e refl h

read_one : (i temp limb : ℕ) → i < 8 → temp < 2 ^ (2 * i) → IsU32 limb → Round i temp limb
read_one zero temp limb h small word = (
  omega (
    arith,
    bit_and-low 30 (bit_or temp (u32 (limb << 0))),
    above_temp 0 temp (limb % 2 ^ 32) small joined,
  ),
  omega arith,
)
  where
    joined : u32 (limb << 0) ≡ limb % 2 ^ 32 * 2 ^ 0
    joined = omega arith
read_one (suc zero) temp limb h small word = (
  omega (
    arith,
    bit_and-low 30 (bit_or temp (u32 (limb << 2))),
    above_temp 2 temp (limb % 2 ^ 30) small joined,
  ),
  omega arith,
)
  where
    joined : u32 (limb << 2) ≡ limb % 2 ^ 30 * 2 ^ 2
    joined = omega arith
read_one (suc (suc zero)) temp limb h small word = (
  omega (
    arith,
    bit_and-low 30 (bit_or temp (u32 (limb << 4))),
    above_temp 4 temp (limb % 2 ^ 28) small joined,
  ),
  omega arith,
)
  where
    joined : u32 (limb << 4) ≡ limb % 2 ^ 28 * 2 ^ 4
    joined = omega arith
read_one (suc (suc (suc zero))) temp limb h small word = (
  omega (
    arith,
    bit_and-low 30 (bit_or temp (u32 (limb << 6))),
    above_temp 6 temp (limb % 2 ^ 26) small joined,
  ),
  omega arith,
)
  where
    joined : u32 (limb << 6) ≡ limb % 2 ^ 26 * 2 ^ 6
    joined = omega arith
read_one (suc (suc (suc (suc zero)))) temp limb h small word = (
  omega (
    arith,
    bit_and-low 30 (bit_or temp (u32 (limb << 8))),
    above_temp 8 temp (limb % 2 ^ 24) small joined,
  ),
  omega arith,
)
  where
    joined : u32 (limb << 8) ≡ limb % 2 ^ 24 * 2 ^ 8
    joined = omega arith
read_one (suc (suc (suc (suc (suc zero))))) temp limb h small word = (
  omega (
    arith,
    bit_and-low 30 (bit_or temp (u32 (limb << 10))),
    above_temp 10 temp (limb % 2 ^ 22) small joined,
  ),
  omega arith,
)
  where
    joined : u32 (limb << 10) ≡ limb % 2 ^ 22 * 2 ^ 10
    joined = omega arith
read_one (suc (suc (suc (suc (suc (suc zero)))))) temp limb h small word = (
  omega (
    arith,
    bit_and-low 30 (bit_or temp (u32 (limb << 12))),
    above_temp 12 temp (limb % 2 ^ 20) small joined,
  ),
  omega arith,
)
  where
    joined : u32 (limb << 12) ≡ limb % 2 ^ 20 * 2 ^ 12
    joined = omega arith
read_one (suc (suc (suc (suc (suc (suc (suc zero))))))) temp limb h small word = (
  omega (
    arith,
    bit_and-low 30 (bit_or temp (u32 (limb << 14))),
    above_temp 14 temp (limb % 2 ^ 18) small joined,
  ),
  omega arith,
)
  where
    joined : u32 (limb << 14) ≡ limb % 2 ^ 18 * 2 ^ 14
    joined = omega arith
read_one (suc (suc (suc (suc (suc (suc (suc (suc i)))))))) temp limb h small word =
    absurd (omega arith)

-- The number that `n` words from the `i`-th on stand for.
abbrev pub words_value : (ℕ → ℕ) → ℕ → ℕ → ℕ
words_value word zero i = 0
words_value word (suc n) i = word i + 2 ^ 32 * words_value word n (i + 1)

shift_step : (i : ℕ) → 2 ^ (2 * (i + 1)) ≡ 4 * 2 ^ (2 * i)
shift_step i =
    ap (λ (k : ℕ). 2 ^ k) two_more ∙ omega (arith, pow-suc 2 (suc (2 * i)), pow-suc 2 (2 * i))
  where
    two_more : 2 * (i + 1) ≡ suc (suc (2 * i))
    two_more = omega arith

read_loop-value :
    (word : ℕ → ℕ) (left i temp : ℕ)
    → ((j : ℕ) → IsU32 (word j))
    → i + left ≡ 8
    → temp < 2 ^ (2 * i)
    → (value (read_loop word left i temp) ≡ temp + 2 ^ (2 * i) * words_value word left i)
      × (IsNormal (read_loop word left i temp))
      × (length (read_loop word left i temp) ≡ suc left)
unfolding read_loop
read_loop-value word zero i temp h e small = (omega arith, (fits, tt), refl)
  where
    fits : temp < 2 ^ 30
    fits = le_trans small (pow-le-pow_right (omega arith) {i = 2 * i} {j = 30} (omega arith))
read_loop-value word (suc left) i temp h e small =
    let this : Round i temp (word i) = read_one i temp (word i) (omega arith) small (h i) in
    let fits : word i >> (30 - 2 * i) < 2 ^ (2 * (i + 1)) =
      subst (λ (k : ℕ). word i >> (30 - 2 * i) < 2 ^ k) (two_more i) this.1 in
    let rest = read_loop-value word left (i + 1) (word i >> (30 - 2 * i)) h (omega arith) fits in
    (
      omega
          (arith, rest.0, this.0, ap (λ (p : ℕ). p * words_value word left (i + 1)) (shift_step i)),
      (limb-lt _, rest.1),
      ap suc rest.2,
    )
  where
    two_more : (k : ℕ) → 2 * k + 2 ≡ 2 * (k + 1)
    two_more k = omega arith

-- Any eight words are read into a normalized number of the same value.
pub read_words :
    (word : ℕ → ℕ)
    → ((j : ℕ) → IsU32 (word j))
    → IsBignum (read_loop word 8 0 0) × (value (read_loop word 8 0 0) ≡ words_value word 8 0)
read_words word h =
    let r = read_loop-value word 8 0 0 h refl (omega arith) in
    (record { limbs = r.2; normal = r.1 }, omega (arith, r.0))
