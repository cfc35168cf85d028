-- ===== src/Depth/Lists.antt =====
-- The depth of the stack as control goes through a word list of misc/c/c4-interp.c. `_next` and
-- docol of misc/c/c5.c push a frame when a list is entered, and return0 drops it.
use north_arm.Prelude.{
  ℕ, suc, ◌+◌, ◌-◌, ◌≡◌, Bool, true, false, Option, none, some, List, [], ◌∷◌, if◌then◌else◌,
}
use north_arm.C5.Op.{Op}
use north_arm.Interp.Item.{Item, Colon, op, word, constant, variable}
use north_arm.Interp.Body.{body}
use north_arm.Interp.Flow.{
  Instruction, step, jumps, branches, is_literal, literal_before, instruction, items_from, goes,
}
use north_arm.Depth.Arity.{is_fixed, takes, leaves}

-- The cells that an item takes and leaves, when it is not the operand of a literal.
abbrev item_moves : Item → Option (ℕ × ℕ)
item_moves (op o) = if is_fixed o then some (takes o, leaves o) else none
item_moves (constant c) = some (0, 1)
item_moves (variable v) = some (0, 1)
item_moves _ = none

-- A literal, with the jump that takes it.
abbrev literal_moves : Instruction → Option (ℕ × ℕ)
literal_moves (step n) = some (0, 1)
literal_moves (jumps k) = some (0, 0)
literal_moves (branches k) = some (1, 0)
literal_moves _ = none

-- The cells that the instruction at the head of a list takes and leaves, if these are fixed and it
-- neither calls a word list nor ends one.
abbrev pub moves : List Item → Option (ℕ × ℕ)
moves [] = none
moves (x ∷ l) = if is_literal x then literal_moves (literal_before l) else item_moves x

abbrev pub called : List Item → Option Colon
called (word c ∷ l) = some c
called _ = none

abbrev pub returns : List Item → Bool
returns (op Op.return0 ∷ l) = true
returns _ = false

-- `At c n p d`: a call of `c` that finds `n` cells comes to the item at place `p` with `d` cells.
pub data At : Colon → ℕ → ℕ → ℕ → Type 0 where
  begins : {c : Colon} {n : ℕ} → At c n 0 (suc n)
  goes_on :
      {c : Colon} {n p q d a b : ℕ}
      → At c n p d
      → moves (items_from (body c) p) ≡ some (a, b)
      → goes (instruction (items_from (body c) p)) p q ≡ true
      → At c n q (d - a + b)
  comes_back :
      {c c' : Colon} {n p p' d m : ℕ}
      → At c n p d
      → called (items_from (body c) p) ≡ some c'
      → At c' d p' (suc m)
      → returns (items_from (body c') p') ≡ true
      → At c n (suc p) m
