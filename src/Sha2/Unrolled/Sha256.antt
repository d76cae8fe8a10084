-- ===== src/Sha2/Unrolled/Sha256.antt =====
-- The unrolled `sha256_Transform`: the macros write two registers in place, and are called with the names
-- of the registers in eight orders.
pub mod Rolled
use aex_cpp_sdk.Base.{ℕ, zero, suc, ◌+◌, List, [], ◌∷◌, get_or, set, replicate, bit_and, u32}
use aex_cpp_sdk.Sha2.Logic.{ch, maj, big_sigma0_256, big_sigma1_256}
use aex_cpp_sdk.Sha2.Sha256.{Registers, Rounds, k256, next_word, add_registers}

-- The arguments of a macro call, in their order.
pub data Order : Type 0 where
  abcdefgh : Order
  habcdefg : Order
  ghabcdef : Order
  fghabcde : Order
  efghabcd : Order
  defghabc : Order
  cdefghab : Order
  bcdefgha : Order

-- The registers as the arguments `a` to `h` of a call, and the registers of the arguments.
unfoldable pub arguments : Order → Registers → Registers
arguments abcdefgh r = r
arguments habcdefg r = record {
  a = r.h;
  b = r.a;
  c = r.b;
  d = r.c;
  e = r.d;
  f = r.e;
  g = r.f;
  h = r.g;
}
arguments ghabcdef r = record {
  a = r.g;
  b = r.h;
  c = r.a;
  d = r.b;
  e = r.c;
  f = r.d;
  g = r.e;
  h = r.f;
}
arguments fghabcde r = record {
  a = r.f;
  b = r.g;
  c = r.h;
  d = r.a;
  e = r.b;
  f = r.c;
  g = r.d;
  h = r.e;
}
arguments efghabcd r = record {
  a = r.e;
  b = r.f;
  c = r.g;
  d = r.h;
  e = r.a;
  f = r.b;
  g = r.c;
  h = r.d;
}
arguments defghabc r = record {
  a = r.d;
  b = r.e;
  c = r.f;
  d = r.g;
  e = r.h;
  f = r.a;
  g = r.b;
  h = r.c;
}
arguments cdefghab r = record {
  a = r.c;
  b = r.d;
  c = r.e;
  d = r.f;
  e = r.g;
  f = r.h;
  g = r.a;
  h = r.b;
}
arguments bcdefgha r = record {
  a = r.b;
  b = r.c;
  c = r.d;
  d = r.e;
  e = r.f;
  f = r.g;
  g = r.h;
  h = r.a;
}

unfoldable pub registers : Order → Registers → Registers
registers abcdefgh v = v
registers habcdefg v = record {
  a = v.b;
  b = v.c;
  c = v.d;
  d = v.e;
  e = v.f;
  f = v.g;
  g = v.h;
  h = v.a;
}
registers ghabcdef v = record {
  a = v.c;
  b = v.d;
  c = v.e;
  d = v.f;
  e = v.g;
  f = v.h;
  g = v.a;
  h = v.b;
}
registers fghabcde v = record {
  a = v.d;
  b = v.e;
  c = v.f;
  d = v.g;
  e = v.h;
  f = v.a;
  g = v.b;
  h = v.c;
}
registers efghabcd v = record {
  a = v.e;
  b = v.f;
  c = v.g;
  d = v.h;
  e = v.a;
  f = v.b;
  g = v.c;
  h = v.d;
}
registers defghabc v = record {
  a = v.f;
  b = v.g;
  c = v.h;
  d = v.a;
  e = v.b;
  f = v.c;
  g = v.d;
  h = v.e;
}
registers cdefghab v = record {
  a = v.g;
  b = v.h;
  c = v.a;
  d = v.b;
  e = v.c;
  f = v.d;
  g = v.e;
  h = v.f;
}
registers bcdefgha v = record {
  a = v.h;
  b = v.a;
  c = v.b;
  d = v.c;
  e = v.d;
  f = v.e;
  g = v.f;
  h = v.g;
}

-- What the macros do to their arguments, for a round constant and a message word.
unfoldable pub in_place : Registers → ℕ → ℕ → Registers
in_place v k w =
    let t1 = u32 (v.h + big_sigma1_256 v.e + ch v.e v.f v.g + k + w) in
    record {
      a = v.a;
      b = v.b;
      c = v.c;
      d = u32 (v.d + t1);
      e = v.e;
      f = v.f;
      g = v.g;
      h = u32 (t1 + big_sigma0_256 v.a + maj v.a v.b v.c);
    }

-- `ROUND256_0_TO_15` in round `j`.
unfoldable pub round256_0_to_15 : List ℕ → Order → ℕ → Rounds → Rounds
round256_0_to_15 block order j s =
    let w = get_or block j 0 in
    record {
      regs = registers order (in_place (arguments order s.regs) (get_or k256 j 0) w);
      words = set s.words j w;
    }

-- `ROUND256` in round `j`.
unfoldable pub round256 : Order → ℕ → Rounds → Rounds
round256 order j s =
    let w = next_word s.words j in
    record {
      regs = registers order (in_place (arguments order s.regs) (get_or k256 j 0) w);
      words = set s.words (bit_and j 0x0f) w;
    }

-- The calls of a macro one after the other, from round `j` on.
unfoldable pub calls : (Order → ℕ → Rounds → Rounds) → List Order → ℕ → Rounds → Rounds
calls macro [] j s = s
calls macro (order ∷ orders) j s = calls macro orders (j + 1) (macro order j s)

-- The orders of the eight calls in the body of either loop.
abbrev pub orders_of_eight : List Order
orders_of_eight =
    abcdefgh ∷ habcdefg ∷ ghabcdef ∷ fghabcde ∷ efghabcd ∷ defghabc ∷ cdefghab ∷ bcdefgha ∷ []

-- Either loop, with so many times eight rounds to go.
unfoldable pub loop : (Order → ℕ → Rounds → Rounds) → ℕ → ℕ → Rounds → Rounds
loop macro zero j s = s
loop macro (suc left) j s = loop macro left (j + 8) (calls macro orders_of_eight j s)

-- `sha256_Transform`, with `W256` zero at first: every entry is written before it is read.
unfoldable pub unrolled_transform : List ℕ → List ℕ → List ℕ
unrolled_transform state_in block =
    let start : Registers = record {
      a = get_or state_in 0 0;
      b = get_or state_in 1 0;
      c = get_or state_in 2 0;
      d = get_or state_in 3 0;
      e = get_or state_in 4 0;
      f = get_or state_in 5 0;
      g = get_or state_in 6 0;
      h = get_or state_in 7 0;
    } in
    let first =
      loop (round256_0_to_15 block) 2 0 (record { regs = start; words = replicate 16 0 }) in
    let last = loop round256 6 16 first in add_registers state_in last.regs
