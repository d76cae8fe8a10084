-- ===== src/Sha2/Unrolled/Sha1/Rolled.antt =====
-- The unrolled `sha1_Transform` computes what the rolled one does.
use aex_cpp_sdk.Base.{ℕ, zero, suc, ◌+◌, List, [], ◌∷◌, get_or, set, bit_and, ◌≡◌, refl, ap, ◌∙◌}
use aex_cpp_sdk.Sha2.Logic.{ch, maj, parity}
use aex_cpp_sdk.Sha2.Sha1.{
  Registers, Rounds, compress, next_word, data_rounds, schedule_rounds, add_registers, transform,
}
use aex_cpp_sdk.Sha2.Unrolled.Sha1.{
  Order, abcde, eabcd, deabc, cdeab, bcdea, arguments, registers, in_place, round1_0_to_15,
  scheduled_round, round1_16_to_19, round1_20_to_39, round1_40_to_59, round1_60_to_79, calls,
  orders_0_to_15, orders_16_to_19, orders_of_twenty, unrolled_transform,
}

next : Order → Order
next abcde = eabcd
next eabcd = deabc
next deabc = cdeab
next cdeab = bcdea
next bcdea = abcde

-- So many orders from one on, and the order after them.
cycle : ℕ → Order → List Order
cycle zero o = []
cycle (suc n) o = o ∷ cycle n (next o)

after : ℕ → Order → Order
after zero o = o
after (suc n) o = after n (next o)

-- The state as the next call takes it.
turned : Order → Rounds → Rounds
turned o s = record { regs = arguments o s.regs; words = s.words }

-- A call in place gives the next call the registers of a rolled round.
in_place-compress :
    (o : Order) (f k w : ℕ) (r : Registers)
    → arguments (next o) (registers o (in_place (arguments o r) f k w))
      ≡ compress (arguments o r) f k w
unfolding next arguments registers in_place compress
in_place-compress abcde f k w r = refl
in_place-compress eabcd f k w r = refl
in_place-compress deabc f k w r = refl
in_place-compress cdeab f k w r = refl
in_place-compress bcdea f k w r = refl

calls-data_rounds :
    (block : List ℕ) (n : ℕ) (o : Order) (j : ℕ) (s : Rounds)
    → turned (after n o) (calls (round1_0_to_15 block) (cycle n o) j s)
      ≡ data_rounds block n j (turned o s)
unfolding after cycle calls data_rounds turned round1_0_to_15
calls-data_rounds block zero o j s = refl
calls-data_rounds block (suc n) o j s =
    calls-data_rounds block n (next o) (j + 1) (round1_0_to_15 block o j s)
    ∙ ap
        (λ (r : Registers).
          data_rounds block n (j + 1)
            (record { regs = r; words = set s.words j (get_or block j 0) }))
        (in_place-compress o _ _ _ s.regs)

calls-schedule_rounds :
    (f : ℕ → ℕ → ℕ → ℕ) (k n : ℕ) (o : Order) (j : ℕ) (s : Rounds)
    → turned (after n o) (calls (scheduled_round f k) (cycle n o) j s)
      ≡ schedule_rounds f k n j (turned o s)
unfolding after cycle calls schedule_rounds turned scheduled_round
calls-schedule_rounds f k zero o j s = refl
calls-schedule_rounds f k (suc n) o j s =
    calls-schedule_rounds f k n (next o) (j + 1) (scheduled_round f k o j s)
    ∙ ap
        (λ (r : Registers).
          schedule_rounds f k n (j + 1)
            (record { regs = r; words = set s.words (bit_and j 0x0f) (next_word s.words j) }))
        (in_place-compress o _ _ _ s.regs)

-- Groups of calls, from the order that comes first.
data_group :
    (block : List ℕ) (s : Rounds)
    → turned eabcd (calls (round1_0_to_15 block) orders_0_to_15 0 s) ≡ data_rounds block 16 0 s
unfolding turned arguments after cycle next
data_group block s = calls-data_rounds block 16 abcde 0 s

group_of_four :
    (f : ℕ → ℕ → ℕ → ℕ) (k j : ℕ) (s : Rounds)
    → calls (scheduled_round f k) orders_16_to_19 j s ≡ schedule_rounds f k 4 j (turned eabcd s)
unfolding turned arguments after cycle next
group_of_four f k j s = calls-schedule_rounds f k 4 eabcd j s

group_of_twenty :
    (f : ℕ → ℕ → ℕ → ℕ) (k j : ℕ) (s : Rounds)
    → calls (scheduled_round f k) orders_of_twenty j s ≡ schedule_rounds f k 20 j s
unfolding turned arguments after cycle next
group_of_twenty f k j s = calls-schedule_rounds f k 20 abcde j s

-- The unrolled `sha1_Transform`, which writes its registers in place under turned names, gives the
-- same state as the rolled one, for every state and block.
pub sha1_unrolled-transform :
    (state_in block : List ℕ) → unrolled_transform state_in block ≡ transform state_in block
unfolding unrolled_transform transform round1_16_to_19 round1_20_to_39 round1_40_to_59
    round1_60_to_79
sha1_unrolled-transform state_in block =
    ap (λ (s : Rounds). add_registers state_in s.regs)
      (group_of_twenty parity 0xca62c1d6 60 _
        ∙ ap (schedule_rounds parity 0xca62c1d6 20 60) (
            group_of_twenty maj 0x8f1bbcdc 40 _
            ∙ ap (schedule_rounds maj 0x8f1bbcdc 20 40) (
                group_of_twenty parity 0x6ed9eba1 20 _
                ∙ ap (schedule_rounds parity 0x6ed9eba1 20 20) (
                    group_of_four ch 0x5a827999 16 _
                    ∙ ap (schedule_rounds ch 0x5a827999 4 16) (data_group block _)))))
