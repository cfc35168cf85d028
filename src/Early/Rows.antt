-- ===== src/Early/Rows.antt =====
-- What dump_stack of the earlier interpreters prints of a stack that can be read.
use north_arm.Prelude.{
  ℕ, zero, suc, ◌+◌, ◌*◌, ◌%◌, ◌^◌, ◌≤◌, ◌≡◌, Option, some, List, [], ◌∷◌, ◌++◌, length, arith,
}
use mathlib.Core.List.{append_assoc, append-nil}
use north_arm.Prelude.Int.{pos}
use north_arm.Word64.{to_ℤ}
use north_arm.Machine.{Machine, M, Out, int, hex, pointer, done}
use north_arm.Early.Third.{int32}
use north_arm.Early.Dump.{distance, dump_loop, dump_stack, shows_long, shows_int}

-- The cells from `a` up hold `vs`.
abbrev pub Column : (ℕ → Option ℕ) → ℕ → List ℕ → Type 0
Column cells a [] = Unit {0}
Column cells a (v ∷ vs) = (cells a ≡ some v) × Column cells (a + 8) vs

abbrev pub printed : Machine → List Out → Machine
printed m os = record m { output = m.output ++ os }

-- What dump_stack prints first.
abbrev pub heading : ℕ → ℕ → List Out
heading a n = pointer a ∷ pointer (a + 8 * n) ∷ int (pos n) ∷ []

distance_lem : (a n : ℕ) → distance a (a + 8 * n) ≡ pos n
distance_lem a n = ground arith

module _ (line : ℕ → List Out) where
  abbrev pub rows : List ℕ → List Out
  rows [] = []
  rows (v ∷ vs) = line v ++ rows vs

  module _ (shows : ℕ → M (Unit {0}))
      (shown : (m : Machine) (a v : ℕ)
        → m.cells a ≡ some v
        → shows a m ≡ done tt (printed m (line v))) where
    dump_loop_lem :
        (vs : List ℕ) (fuel a : ℕ) (m : Machine)
        → Column m.cells a vs
        → length vs + 1 ≤ fuel
        → dump_loop shows fuel a (a + 8 * length vs) m ≡ done tt (printed m (rows vs))
    unfolding dump_loop
    dump_loop_lem [] zero a m c h = ground arith
    dump_loop_lem [] (suc fuel) a m c h = ground (arith, append-nil m.output)
    dump_loop_lem (v ∷ vs) zero a m c h = ground arith
    dump_loop_lem (v ∷ vs) (suc fuel) a m (e, c) h = ground (
      arith,
      shown m a v e,
      append_assoc m.output (line v) (rows vs),
      dump_loop_lem vs fuel (a + 8) (printed m (line v)) c (omega arith),
    )

    dump_stack_lem :
        (vs : List ℕ) (fuel a : ℕ) (m : Machine)
        → Column m.cells a vs
        → length vs + 1 ≤ fuel
        → dump_stack shows fuel a (a + 8 * length vs) m
          ≡ done tt (printed m (heading a (length vs) ++ rows vs))
    unfolding dump_stack
    dump_stack_lem vs fuel a m c h = ground (
      arith,
      distance_lem a (length vs),
      append_assoc m.output (pointer a ∷ []) (pointer (a + 8 * length vs) ∷ []),
      append_assoc m.output (pointer a ∷ pointer (a + 8 * length vs) ∷ [])
          (int (pos (length vs)) ∷ []),
      append_assoc m.output (heading a (length vs)) (rows vs),
      dump_loop_lem vs fuel a (printed m (heading a (length vs))) c h,
    )

-- A line of c3.c and c4-scripts.c, and one of c1.c and c2.c
abbrev pub long_line : ℕ → List Out
long_line v = int (to_ℤ v) ∷ pointer v ∷ []

abbrev pub int_line : ℕ → List Out
int_line v = int (int32 v) ∷ hex (v % 2 ^ 32) ∷ []

-- Where the cells from a up hold the numbers vs, dump_stack of c3.c, given one unit of fuel more
-- than there are cells, ends and prints the two addresses, the number of cells, and each cell in
-- order as a number and as a pointer; it changes nothing else.
pub dump_stack_long_lem :
    (vs : List ℕ) (fuel a : ℕ) (m : Machine)
    → Column m.cells a vs
    → length vs + 1 ≤ fuel
    → dump_stack shows_long fuel a (a + 8 * length vs) m
      ≡ done tt (printed m (heading a (length vs) ++ rows long_line vs))
unfolding shows_long
dump_stack_long_lem =
    dump_stack_lem long_line shows_long
      (λ m a v e. ground (arith, append_assoc m.output (int (to_ℤ v) ∷ []) (pointer v ∷ [])))

-- Where the cells from a up hold the numbers vs, dump_stack of c1.c and c2.c, given one unit of
-- fuel more than there are cells, ends and prints the two addresses, the number of cells, and
-- the low half of each cell in order as an int and in hexadecimal; it changes nothing else.
pub dump_stack_int_lem :
    (vs : List ℕ) (fuel a : ℕ) (m : Machine)
    → Column m.cells a vs
    → length vs + 1 ≤ fuel
    → dump_stack shows_int fuel a (a + 8 * length vs) m
      ≡ done tt (printed m (heading a (length vs) ++ rows int_line vs))
unfolding shows_int
dump_stack_int_lem =
    dump_stack_lem int_line shows_int (λ m a v e.
      ground (arith, append_assoc m.output (int (int32 v) ∷ []) (hex (v % 2 ^ 32) ∷ [])))
