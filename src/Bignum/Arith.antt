-- ===== src/Bignum/Arith.antt =====
-- Addition and subtraction, limb by limb with a carry in a `uint32_t`.
pub mod Sums
pub mod Differences
use aex_cpp_sdk.Base.{ℕ, ◌+◌, ◌-◌, ◌*◌, ◌^◌, List, [], ◌∷◌, u32, bit_and, ◌>>◌, get_or}

-- The loop of `bn_add` from a carry `tmp`.
unfoldable pub add_loop : ℕ → List ℕ → List ℕ → List ℕ
add_loop tmp [] vs = []
add_loop tmp (a ∷ us) [] = []
add_loop tmp (a ∷ us) (b ∷ vs) =
    let t = u32 (tmp + u32 (a + b)) in bit_and t 0x3FFFFFFF ∷ add_loop (t >> 30) us vs

-- `bn_add`.
unfoldable pub bn_add : List ℕ → List ℕ → List ℕ
bn_add a b = add_loop 0 a b

-- The loop of `bn_addi` from a carry `tmp`.
unfoldable pub addi_loop : ℕ → List ℕ → List ℕ
addi_loop tmp [] = []
addi_loop tmp (a ∷ us) = let t = u32 (tmp + a) in bit_and t 0x3FFFFFFF ∷ addi_loop (t >> 30) us

-- `bn_addi`.
unfoldable pub bn_addi : List ℕ → ℕ → List ℕ
bn_addi a b = addi_loop b a

-- `bn_normalize`.
unfoldable pub bn_normalize : List ℕ → List ℕ
bn_normalize a = bn_addi a 0

-- `a->val[0] -= b`, in a `uint32_t`.
unfoldable pub sub_low : List ℕ → ℕ → List ℕ
sub_low [] b = []
sub_low (a ∷ us) b = u32 (a + 2 ^ 32 - b) ∷ us

-- `bn_subi`: the underflow of the lowest limb is undone by adding the prime.
unfoldable pub bn_subi : List ℕ → ℕ → List ℕ → List ℕ
bn_subi a b prime = bn_add (sub_low a b) prime

-- The loop of `bn_subtractmod` from a carry `temp`.
unfoldable pub subtractmod_loop : ℕ → List ℕ → List ℕ → List ℕ → List ℕ
subtractmod_loop temp [] vs ps = []
subtractmod_loop temp (a ∷ us) [] ps = []
subtractmod_loop temp (a ∷ us) (b ∷ vs) [] = []
subtractmod_loop temp (a ∷ us) (b ∷ vs) (p ∷ ps) =
    let t = u32 (temp + (0x3FFFFFFF + a + 2 * p + 2 ^ 32 - b)) in
    bit_and t 0x3FFFFFFF ∷ subtractmod_loop (t >> 30) us vs ps

-- `bn_subtractmod`.
unfoldable pub bn_subtractmod : List ℕ → List ℕ → List ℕ → List ℕ
bn_subtractmod a b prime = subtractmod_loop 1 a b prime

-- The loop of `bn_subtract` from a carry `tmp`.
unfoldable pub subtract_loop : ℕ → List ℕ → List ℕ → List ℕ
subtract_loop tmp [] vs = []
subtract_loop tmp (a ∷ us) [] = []
subtract_loop tmp (a ∷ us) (b ∷ vs) =
    let t = u32 (tmp + (0x3FFFFFFF + a + 2 ^ 32 - b)) in
    bit_and t 0x3FFFFFFF ∷ subtract_loop (t >> 30) us vs

-- `bn_subtract`.
unfoldable pub bn_subtract : List ℕ → List ℕ → List ℕ
bn_subtract a b = subtract_loop 1 a b
