-- ===== src/Sha2/Unrolled/Sha512/Rolled.antt =====
-- The unrolled `sha512_Transform` computes what the rolled one does.
use aex_cpp_sdk.Base.{
  ℕ, zero, suc, ◌+◌, List, [], ◌∷◌, get_or, set, bit_and, u64, ◌≡◌, refl, ap, ◌∙◌, arith,
}
use aex_cpp_sdk.Sha2.Logic.{ch64, maj, big_sigma0_512, big_sigma1_512}
use aex_cpp_sdk.Sha2.Sha512.{
  Registers, Rounds, compress, next_word, data_rounds, schedule_rounds, add_registers, transform,
}
use aex_cpp_sdk.Sha2.Unrolled.Sha512.{
  Order, abcdefgh, habcdefg, ghabcdef, fghabcde, efghabcd, defghabc, cdefghab, bcdefgha, arguments,
  registers, in_place, round512_0_to_15, round512, calls, loop, unrolled_transform,
}

next : Order → Order
next abcdefgh = habcdefg
next habcdefg = ghabcdef
next ghabcdef = fghabcde
next fghabcde = efghabcd
next efghabcd = defghabc
next defghabc = cdefghab
next cdefghab = bcdefgha
next bcdefgha = abcdefgh

-- So many orders from one on, and the order after them.
cycle : ℕ → Order → List Order
cycle zero o = []
cycle (suc n) o = o ∷ cycle n (next o)

after : ℕ → Order → Order
after zero o = o
after (suc n) o = after n (next o)

-- The state as the next call takes it.
turned : Order → Rounds → Rounds
turned o s = record { regs = arguments o s.regs; words = s.words }

-- The arguments of the next call.
moved : Registers → ℕ → ℕ → Registers
moved v k w =
    let v' = in_place v k w in
    record { a = v'.h; b = v'.a; c = v'.b; d = v'.c; e = v'.d; f = v'.e; g = v'.f; h = v'.g }

next_arguments :
    (o : Order) (k w : ℕ) (r : Registers)
    → arguments (next o) (registers o (in_place (arguments o r) k w)) ≡ moved (arguments o r) k w
unfolding next arguments registers moved
next_arguments abcdefgh k w r = refl
next_arguments habcdefg k w r = refl
next_arguments ghabcdef k w r = refl
next_arguments fghabcde k w r = refl
next_arguments efghabcd k w r = refl
next_arguments defghabc k w r = refl
next_arguments cdefghab k w r = refl
next_arguments bcdefgha k w r = refl

u64-add : (x y z : ℕ) → u64 (x + y + z) ≡ u64 (x + u64 (y + z))
u64-add x y z = omega arith

moved-compress : (v : Registers) (k w : ℕ) → moved v k w ≡ compress v k w
unfolding moved in_place compress
moved-compress v k w =
    let t1 = u64 (v.h + big_sigma1_512 v.e + ch64 v.e v.f v.g + k + w) in
    ap
      (λ (x : ℕ). record {
        a = x;
        b = v.a;
        c = v.b;
        d = v.c;
        e = u64 (v.d + t1);
        f = v.e;
        g = v.f;
        h = v.g;
      })
      (u64-add t1 (big_sigma0_512 v.a) (maj v.a v.b v.c))

-- A call in place gives the next call the registers of a rolled round.
in_place-compress :
    (o : Order) (k w : ℕ) (r : Registers)
    → arguments (next o) (registers o (in_place (arguments o r) k w)) ≡ compress (arguments o r) k w
in_place-compress o k w r = next_arguments o k w r ∙ moved-compress (arguments o r) k w

calls-data_rounds :
    (block : List ℕ) (n : ℕ) (o : Order) (j : ℕ) (s : Rounds)
    → turned (after n o) (calls (round512_0_to_15 block) (cycle n o) j s)
      ≡ data_rounds block n j (turned o s)
unfolding after cycle calls data_rounds turned round512_0_to_15
calls-data_rounds block zero o j s = refl
calls-data_rounds block (suc n) o j s =
    calls-data_rounds block n (next o) (j + 1) (round512_0_to_15 block o j s)
    ∙ ap
        (λ (r : Registers).
          data_rounds block n (j + 1)
            (record { regs = r; words = set s.words j (get_or block j 0) }))
        (in_place-compress o _ _ s.regs)

calls-schedule_rounds :
    (n : ℕ) (o : Order) (j : ℕ) (s : Rounds)
    → turned (after n o) (calls round512 (cycle n o) j s) ≡ schedule_rounds n j (turned o s)
unfolding after cycle calls schedule_rounds turned round512
calls-schedule_rounds zero o j s = refl
calls-schedule_rounds (suc n) o j s =
    calls-schedule_rounds n (next o) (j + 1) (round512 o j s)
    ∙ ap
        (λ (r : Registers).
          schedule_rounds n (j + 1)
            (record { regs = r; words = set s.words (bit_and j 0x0f) (next_word s.words j) }))
        (in_place-compress o _ _ s.regs)

-- The loops are the calls in a row.
loop-calls :
    (macro : Order → ℕ → Rounds → Rounds) (s : Rounds)
    → (loop macro 2 0 s ≡ calls macro (cycle 16 abcdefgh) 0 s)
      × (loop macro 8 16 s ≡ calls macro (cycle 64 abcdefgh) 16 s)
unfolding loop calls cycle next
loop-calls macro s = (refl, refl)

data_loop :
    (block : List ℕ) (s : Rounds) → loop (round512_0_to_15 block) 2 0 s ≡ data_rounds block 16 0 s
unfolding turned arguments after next
data_loop block s =
    (loop-calls (round512_0_to_15 block) s).0 ∙ calls-data_rounds block 16 abcdefgh 0 s

schedule_loop : (s : Rounds) → loop round512 8 16 s ≡ schedule_rounds 64 16 s
unfolding turned arguments after next
schedule_loop s = (loop-calls round512 s).1 ∙ calls-schedule_rounds 64 abcdefgh 16 s

-- The unrolled `sha512_Transform`, which writes its registers in place under turned names, gives
-- the same state as the rolled one, for every state and block.
pub sha512_unrolled-transform :
    (state_in block : List ℕ) → unrolled_transform state_in block ≡ transform state_in block
unfolding unrolled_transform transform
sha512_unrolled-transform state_in block =
    ap (λ (s : Rounds). add_registers state_in s.regs)
      (schedule_loop _ ∙ ap (schedule_rounds 64 16) (data_loop block _))
