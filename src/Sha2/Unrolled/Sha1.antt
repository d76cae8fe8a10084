-- ===== src/Sha2/Unrolled/Sha1.antt =====
-- The unrolled `sha1_Transform`: the macros write two registers in place, and are called with the names of
-- the registers in five orders.
pub mod Rolled
use aex_cpp_sdk.Base.{ℕ, ◌+◌, List, [], ◌∷◌, ◌++◌, get_or, set, replicate, bit_and, u32}
use aex_cpp_sdk.Sha2.Logic.{ch, maj, parity, rotl32}
use aex_cpp_sdk.Sha2.Sha1.{Registers, Rounds, next_word, add_registers}

-- The arguments of a macro call, in their order.
pub data Order : Type 0 where
  abcde : Order
  eabcd : Order
  deabc : Order
  cdeab : Order
  bcdea : Order

-- The registers as the arguments `a` to `e` of a call, and the registers of the arguments.
unfoldable pub arguments : Order → Registers → Registers
arguments abcde r = r
arguments eabcd r = record { a = r.e; b = r.a; c = r.b; d = r.c; e = r.d }
arguments deabc r = record { a = r.d; b = r.e; c = r.a; d = r.b; e = r.c }
arguments cdeab r = record { a = r.c; b = r.d; c = r.e; d = r.a; e = r.b }
arguments bcdea r = record { a = r.b; b = r.c; c = r.d; d = r.e; e = r.a }

unfoldable pub registers : Order → Registers → Registers
registers abcde v = v
registers eabcd v = record { a = v.b; b = v.c; c = v.d; d = v.e; e = v.a }
registers deabc v = record { a = v.c; b = v.d; c = v.e; d = v.a; e = v.b }
registers cdeab v = record { a = v.d; b = v.e; c = v.a; d = v.b; e = v.c }
registers bcdea v = record { a = v.e; b = v.a; c = v.b; d = v.c; e = v.d }

-- What the macros do to their arguments, for a logical function's value, a constant and a message word.
unfoldable pub in_place : Registers → ℕ → ℕ → ℕ → Registers
in_place v f k w = record {
  a = v.a;
  b = rotl32 30 v.b;
  c = v.c;
  d = v.d;
  e = u32 (rotl32 5 v.a + f + v.e + k + w);
}

-- `ROUND1_0_TO_15` in round `j`.
unfoldable pub round1_0_to_15 : List ℕ → Order → ℕ → Rounds → Rounds
round1_0_to_15 block order j s =
    let v = arguments order s.regs in
    let w = get_or block j 0 in
    record {
      regs = registers order (in_place v (ch v.b v.c v.d) 0x5a827999 w);
      words = set s.words j w;
    }

-- The macros of the later rounds, for a logical function and a constant.
unfoldable pub scheduled_round : (ℕ → ℕ → ℕ → ℕ) → ℕ → Order → ℕ → Rounds → Rounds
scheduled_round f k order j s =
    let v = arguments order s.regs in
    let w = next_word s.words j in
    record {
      regs = registers order (in_place v (f v.b v.c v.d) k w);
      words = set s.words (bit_and j 0x0f) w;
    }

unfoldable pub round1_16_to_19 : Order → ℕ → Rounds → Rounds
round1_16_to_19 = scheduled_round ch 0x5a827999

unfoldable pub round1_20_to_39 : Order → ℕ → Rounds → Rounds
round1_20_to_39 = scheduled_round parity 0x6ed9eba1

unfoldable pub round1_40_to_59 : Order → ℕ → Rounds → Rounds
round1_40_to_59 = scheduled_round maj 0x8f1bbcdc

unfoldable pub round1_60_to_79 : Order → ℕ → Rounds → Rounds
round1_60_to_79 = scheduled_round parity 0xca62c1d6

-- The calls of a macro one after the other, from round `j` on.
unfoldable pub calls : (Order → ℕ → Rounds → Rounds) → List Order → ℕ → Rounds → Rounds
calls macro [] j s = s
calls macro (order ∷ orders) j s = calls macro orders (j + 1) (macro order j s)

-- The orders of the calls: rounds 0 to 15, rounds 16 to 19, and each of the groups of twenty.
abbrev pub orders_0_to_15 : List Order
orders_0_to_15 =
    abcde ∷ eabcd ∷ deabc ∷ cdeab ∷ bcdea ∷ abcde ∷ eabcd ∷ deabc ∷ cdeab ∷ bcdea ∷ abcde ∷ eabcd
    ∷ deabc ∷ cdeab ∷ bcdea ∷ abcde ∷ []

abbrev pub orders_16_to_19 : List Order
orders_16_to_19 = eabcd ∷ deabc ∷ cdeab ∷ bcdea ∷ []

abbrev pub orders_of_twenty : List Order
orders_of_twenty =
    abcde ∷ eabcd ∷ deabc ∷ cdeab ∷ bcdea ∷ abcde ∷ eabcd ∷ deabc ∷ cdeab ∷ bcdea ∷ abcde ∷ eabcd
    ∷ deabc ∷ cdeab ∷ bcdea ∷ abcde ∷ eabcd ∷ deabc ∷ cdeab ∷ bcdea ∷ []

-- `sha1_Transform`, with `W1` zero at first: every entry is written before it is read.
unfoldable pub unrolled_transform : List ℕ → List ℕ → List ℕ
unrolled_transform state_in block =
    let start : Registers = record {
      a = get_or state_in 0 0;
      b = get_or state_in 1 0;
      c = get_or state_in 2 0;
      d = get_or state_in 3 0;
      e = get_or state_in 4 0;
    } in
    let s16 =
      calls (round1_0_to_15 block) orders_0_to_15 0
        (record { regs = start; words = replicate 16 0 }) in
    let s20 = calls round1_16_to_19 orders_16_to_19 16 s16 in
    let s40 = calls round1_20_to_39 orders_of_twenty 20 s20 in
    let s60 = calls round1_40_to_59 orders_of_twenty 40 s40 in
    let s80 = calls round1_60_to_79 orders_of_twenty 60 s60 in add_registers state_in s80.regs
