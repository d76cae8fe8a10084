-- ===== src/Ripemd160/Process.antt =====
-- `ripemd160_process` of src/crypto/ripemd160.c. The 80 lines of the two parallel chains name the
-- registers in an order that turns by one place from each line to the next, which is a rotation of the
-- registers here.
use aex_cpp_sdk.Base.{
  ℕ, ◌+◌, ◌-◌, List, [], ◌∷◌, get_or, u32, not32, bit_and, bit_or, bit_xor, ◌<<◌, ◌>>◌,
}
use aex_cpp_sdk.Sha2.Frame.{load_words}

-- The macros `F1` to `F5` and `S`.
abbrev pub f1 : ℕ → ℕ → ℕ → ℕ
f1 x y z = bit_xor (bit_xor x y) z

abbrev pub f2 : ℕ → ℕ → ℕ → ℕ
f2 x y z = bit_or (bit_and x y) (bit_and (not32 x) z)

abbrev pub f3 : ℕ → ℕ → ℕ → ℕ
f3 x y z = bit_xor (bit_or x (not32 y)) z

abbrev pub f4 : ℕ → ℕ → ℕ → ℕ
f4 x y z = bit_or (bit_and x z) (bit_and y (not32 z))

abbrev pub f5 : ℕ → ℕ → ℕ → ℕ
f5 x y z = bit_xor x (bit_or y (not32 z))

unfoldable pub rotate : ℕ → ℕ → ℕ
rotate x n = bit_or (u32 (x << n)) (x >> (32 - n))

-- The registers of a chain, in the order in which a line names them.
pub record Registers : Type 0 where
  pub a : ℕ
  pub b : ℕ
  pub c : ℕ
  pub d : ℕ
  pub e : ℕ

-- The macro `P`, for the value of the logical function, and the order of the next line.
unfoldable pub chain_step : (ℕ → ℕ → ℕ → ℕ) → ℕ → List ℕ → ℕ → ℕ → Registers → Registers
unfolding rotate
chain_step f k block r s regs =
    let a =
      u32 (rotate (u32 (regs.a + (f regs.b regs.c regs.d + get_or block r 0 + k))) s + regs.e) in
    record { a = regs.e; b = a; c = regs.b; d = rotate regs.c 10; e = regs.d }

-- The numbers `r`, `s`, `rp` and `sp` of a line.
pub record Line : Type 0 where
  pub r : ℕ
  pub s : ℕ
  pub rp : ℕ
  pub sp : ℕ

abbrev line : ℕ → ℕ → ℕ → ℕ → Line
line r s rp sp = record { r = r; s = s; rp = rp; sp = sp }

-- The lines with the same functions `F` and `Fp` and constants `K` and `Kp`.
pub record Group : Type 0 where
  pub f : ℕ → ℕ → ℕ → ℕ
  pub k : ℕ
  pub fp : ℕ → ℕ → ℕ → ℕ
  pub kp : ℕ
  pub lines : List Line

-- Both chains after the lines of a group, and after the groups.
unfoldable pub group_lines :
    Group → List Line → List ℕ → Registers × Registers → Registers × Registers
unfolding chain_step
group_lines g [] block chains = chains
group_lines g (l ∷ ls) block (left, right) =
    group_lines g ls block
      (chain_step g.f g.k block l.r l.s left, chain_step g.fp g.kp block l.rp l.sp right)

unfoldable pub all_groups : List Group → List ℕ → Registers × Registers → Registers × Registers
all_groups [] block chains = chains
all_groups (g ∷ gs) block chains = all_groups gs block (group_lines g g.lines block chains)

abbrev pub first_group : Group
first_group = record {
  f = f1;
  k = 0x00000000;
  fp = f5;
  kp = 0x50A28BE6;
  lines =
      line 0 11 5 8
      ∷ line 1 14 14 9
      ∷ line 2 15 7 9
      ∷ line 3 12 0 11
      ∷ line 4 5 9 13
      ∷ line 5 8 2 15
      ∷ line 6 7 11 15
      ∷ line 7 9 4 5
      ∷ line 8 11 13 7
      ∷ line 9 13 6 7
      ∷ line 10 14 15 8
      ∷ line 11 15 8 11
      ∷ line 12 6 1 14
      ∷ line 13 7 10 14
      ∷ line 14 9 3 12
      ∷ line 15 8 12 6
      ∷ [];
}

abbrev pub second_group : Group
second_group = record {
  f = f2;
  k = 0x5A827999;
  fp = f4;
  kp = 0x5C4DD124;
  lines =
      line 7 7 6 9
      ∷ line 4 6 11 13
      ∷ line 13 8 3 15
      ∷ line 1 13 7 7
      ∷ line 10 11 0 12
      ∷ line 6 9 13 8
      ∷ line 15 7 5 9
      ∷ line 3 15 10 11
      ∷ line 12 7 14 7
      ∷ line 0 12 15 7
      ∷ line 9 15 8 12
      ∷ line 5 9 12 7
      ∷ line 2 11 4 6
      ∷ line 14 7 9 15
      ∷ line 11 13 1 13
      ∷ line 8 12 2 11
      ∷ [];
}

abbrev pub third_group : Group
third_group = record {
  f = f3;
  k = 0x6ED9EBA1;
  fp = f3;
  kp = 0x6D703EF3;
  lines =
      line 3 11 15 9
      ∷ line 10 13 5 7
      ∷ line 14 6 1 15
      ∷ line 4 7 3 11
      ∷ line 9 14 7 8
      ∷ line 15 9 14 6
      ∷ line 8 13 6 6
      ∷ line 1 15 9 14
      ∷ line 2 14 11 12
      ∷ line 7 8 8 13
      ∷ line 0 13 12 5
      ∷ line 6 6 2 14
      ∷ line 13 5 10 13
      ∷ line 11 12 0 13
      ∷ line 5 7 4 7
      ∷ line 12 5 13 5
      ∷ [];
}

abbrev pub fourth_group : Group
fourth_group = record {
  f = f4;
  k = 0x8F1BBCDC;
  fp = f2;
  kp = 0x7A6D76E9;
  lines =
      line 1 11 8 15
      ∷ line 9 12 6 5
      ∷ line 11 14 4 8
      ∷ line 10 15 1 11
      ∷ line 0 14 3 14
      ∷ line 8 15 11 14
      ∷ line 12 9 15 6
      ∷ line 4 8 0 14
      ∷ line 13 9 5 6
      ∷ line 3 14 12 9
      ∷ line 7 5 2 12
      ∷ line 15 6 13 9
      ∷ line 14 8 9 12
      ∷ line 5 6 7 5
      ∷ line 6 5 10 15
      ∷ line 2 12 14 8
      ∷ [];
}

abbrev pub fifth_group : Group
fifth_group = record {
  f = f5;
  k = 0xA953FD4E;
  fp = f1;
  kp = 0x00000000;
  lines =
      line 4 9 12 8
      ∷ line 0 15 15 5
      ∷ line 5 5 10 12
      ∷ line 9 11 4 9
      ∷ line 7 6 1 12
      ∷ line 12 8 5 5
      ∷ line 2 13 8 14
      ∷ line 10 12 7 6
      ∷ line 14 5 6 8
      ∷ line 1 12 2 13
      ∷ line 3 13 13 6
      ∷ line 8 14 14 5
      ∷ line 11 11 0 15
      ∷ line 6 8 3 13
      ∷ line 15 5 9 11
      ∷ line 13 6 11 11
      ∷ [];
}

-- The last additions.
unfoldable pub combine : List ℕ → Registers → Registers → List ℕ
combine state l r =
    u32 (get_or state 1 0 + l.c + r.d)
    ∷ u32 (get_or state 2 0 + l.d + r.e)
    ∷ u32 (get_or state 3 0 + l.e + r.a)
    ∷ u32 (get_or state 4 0 + l.a + r.b)
    ∷ u32 (get_or state 0 0 + l.b + r.c)
    ∷ []

-- `ripemd160_process`: the new state.
unfoldable pub ripemd160_process : List ℕ → List ℕ → List ℕ
unfolding all_groups group_lines combine
ripemd160_process state bytes =
    let block = load_words 4 16 bytes in
    let start : Registers = record {
      a = get_or state 0 0;
      b = get_or state 1 0;
      c = get_or state 2 0;
      d = get_or state 3 0;
      e = get_or state 4 0;
    } in
    let groups = first_group ∷ second_group ∷ third_group ∷ fourth_group ∷ fifth_group ∷ [] in
    let (left, right) = all_groups groups block (start, start) in combine state left right
