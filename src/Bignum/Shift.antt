-- ===== src/Bignum/Shift.antt =====
-- Shifts, single bits, exclusive or, and halving modulo a prime.
pub mod Values
pub mod Halving
use aex_cpp_sdk.Base.{ℕ, ◌+◌, ◌/◌, ◌%◌, List, [], ◌∷◌, get_or, set, u32, neg32, not32}
use aex_cpp_sdk.Base.{bit_and, bit_or, bit_xor, ◌<<◌, ◌>>◌}

-- The limbs of `bn_lshift` above the lowest; `prev` is the old limb below.
unfoldable pub lshift_loop : ℕ → List ℕ → List ℕ
lshift_loop prev [] = []
lshift_loop prev (a ∷ us) =
    bit_or (bit_and (u32 (a << 1)) 0x3FFFFFFF) (bit_and prev 0x20000000 >> 29) ∷ lshift_loop a us

-- `bn_lshift`.
unfoldable pub bn_lshift : List ℕ → List ℕ
bn_lshift [] = []
bn_lshift (a ∷ us) = bit_and (u32 (a << 1)) 0x3FFFFFFF ∷ lshift_loop a us

-- `bn_rshift`.
unfoldable pub bn_rshift : List ℕ → List ℕ
bn_rshift [] = []
bn_rshift (a ∷ []) = (a >> 1) ∷ []
bn_rshift (a ∷ b ∷ us) = bit_or (a >> 1) (u32 (bit_and b 1 << 29)) ∷ bn_rshift (b ∷ us)

-- `bn_setbit`, `bn_clearbit` and `bn_testbit`.
unfoldable pub bn_setbit : List ℕ → ℕ → List ℕ
bn_setbit a bit = set a (bit / 30) (bit_or (get_or a (bit / 30) 0) (u32 (1 << (bit % 30))))

unfoldable pub bn_clearbit : List ℕ → ℕ → List ℕ
bn_clearbit a bit =
    set a (bit / 30) (bit_and (get_or a (bit / 30) 0) (not32 (u32 (1 << (bit % 30)))))

unfoldable pub bn_testbit : List ℕ → ℕ → ℕ
bn_testbit a bit = bit_and (get_or a (bit / 30) 0) (u32 (1 << (bit % 30)))

-- `bn_xor`.
unfoldable pub bn_xor : List ℕ → List ℕ → List ℕ
bn_xor [] vs = []
bn_xor (b ∷ us) [] = []
bn_xor (b ∷ us) (c ∷ vs) = bit_xor b c ∷ bn_xor us vs

-- The loop of `bn_mult_half`, with `tmp1` for the limb that is not yet written.
unfoldable pub half_loop : ℕ → ℕ → List ℕ → List ℕ → List ℕ
half_loop xodd tmp1 [] ps = tmp1 ∷ []
half_loop xodd tmp1 (x ∷ us) [] = tmp1 ∷ []
half_loop xodd tmp1 (x ∷ us) (p ∷ ps) =
    let tmp2 = u32 (x + bit_and p xodd) in
    let t = u32 (tmp1 + u32 (bit_and tmp2 1 << 29)) in
    bit_and t 0x3fffffff ∷ half_loop xodd (u32 ((t >> 30) + (tmp2 >> 1))) us ps

-- `bn_mult_half`.
unfoldable pub bn_mult_half : List ℕ → List ℕ → List ℕ
bn_mult_half [] ps = []
bn_mult_half (x ∷ us) [] = []
bn_mult_half (x ∷ us) (p ∷ ps) =
    let xodd = neg32 (bit_and x 1) in half_loop xodd (u32 (x + bit_and p xodd) >> 1) us ps
