-- ===== src/Base/Integers.antt =====
-- The signed numbers of the machine, `int` and `int64_t`.
use Prim.Native.Nat.{ℕ, zero, suc}
use mathlib.Core.Bool.{Bool, true, false}

pub data ℤ : Type 0 where
  pos : ℕ → ℤ
  negsuc : ℕ → ℤ

-- `n < 0`.
abbrev pub is_negative : ℤ → Bool
is_negative (pos n) = false
is_negative (negsuc n) = true

-- `n++`, for a negative number.
abbrev pub sucℤ : ℤ → ℤ
sucℤ (pos n) = pos (suc n)
sucℤ (negsuc zero) = pos zero
sucℤ (negsuc (suc n)) = negsuc n

-- The distance below zero.
abbrev pub deficit : ℤ → ℕ
deficit (pos n) = 0
deficit (negsuc n) = suc n
