-- ===== src/Interp/Tests.antt =====
-- Words of the outer interpreter in a concrete memory.
mod Memory
mod Meanings
mod Lists
use north_arm.Interp.Chain.{lookup_ends}
use north_arm.Prelude.{
  ℕ, ◌+◌, ◌≡◌, refl, leb, ltb, ◌&&◌, ◌==◌, true, false, if◌then◌else◌, some, Option, List, [], ◌∷◌,
  arith, flag, not,
}
use north_arm.Machine.{Machine}
use north_arm.C5.Run.{next}
use north_arm.Forth.View.{View, Ends, at as machine_at}
use north_arm.Forth.Vm.{Vm, find, look}
use north_arm.Forth.Runs.{cost}
use north_arm.Interp.Item.{Colon}
use north_arm.C5.Memory.{sign_extend}
use north_arm.Interp.Body.{body}
use north_arm.Interp.Input
use north_arm.Interp.Dictionary
use north_arm.Interp.Arrays
use north_arm.Interp.Laid.{Executes}
use north_arm.Interp.Effects.{is_space_lem, is_newline_lem, dict_entry_next_lem, pick_lem}
use north_arm.Interp.OnMachine.{next-Executes}
use north_arm.Interp.Listing.{vm_at, RunsTo}
use north_arm.Interp.Sequence.{nseq_lem}
use north_arm.Interp.Reverse.Whole.{reverse_lem}
use north_arm.Interp.Compare.{byte_string_equals4_lem}
use north_arm.Interp.Agree.{compare}
use north_arm.Interp.Lookup.{search, byte_string_equals3_lem, lookup_lem}
use north_arm.Interp.Tests.Memory.{host, area, addresses, memory, setting}
use north_arm.Interp.Tests.Lists.{
  nseq-Defined, swap_places-Defined, reverse3-Defined, reverse-Defined, is_space-Defined,
  is_newline-Defined, dict_entry_next-Defined, dict_entry_name-Defined, pick-Defined,
  byte_string_equals4-Defined, byte_string_equals3-Defined, lookup-Defined,
}

abbrev at : ℕ → List ℕ → Vm
at i xs = vm_at setting i xs

-- "ab" and "a" differ in their second byte.
byte_string_equals4_lem_example :
    RunsTo setting (at 35000 (40 ∷ 0 ∷ 1 ∷ 920 ∷ 928 ∷ 7 ∷ [])) (at 0 (0 ∷ 7 ∷ []))
unfolding compare look memory sign_extend
byte_string_equals4_lem_example =
    byte_string_equals4_lem pick-Defined (omega arith) byte_string_equals4-Defined 40 1 920 928
      (7 ∷ []) false (omega arith) (omega arith) refl

-- The token "a" is on the stack, in the last cell, at 4792.
lookup_lem_example :
    RunsTo setting (at 37000 (40 ∷ 800 ∷ 1 ∷ 4792 ∷ 0x61 ∷ [])) (at 0 (1 ∷ 832 ∷ 0x61 ∷ []))
unfolding search compare look find memory sign_extend
lookup_lem_example =
    lookup_lem pick-Defined (omega arith) byte_string_equals4-Defined byte_string_equals3-Defined
      dict_entry_name-Defined dict_entry_next-Defined lookup-Defined 3 40 800 1 4792 832 (0x61 ∷ [])
      (omega arith) (omega arith) refl

lookup_ends_example :
    RunsTo setting (at 37000 (40 ∷ 800 ∷ 1 ∷ 4792 ∷ 0x61 ∷ [])) (at 0 (1 ∷ 832 ∷ 0x61 ∷ []))
unfolding compare look find memory sign_extend
lookup_ends_example =
    lookup_ends pick-Defined (omega arith) byte_string_equals4-Defined byte_string_equals3-Defined
      dict_entry_name-Defined dict_entry_next-Defined lookup-Defined 40 800 1 4792 (0x61 ∷ [])
      ((800, false) ∷ (832, true) ∷ []) (omega arith) (omega arith)
      (refl, refl, (920, refl, refl), (832, refl, (refl, refl, (928, refl, refl), (0, refl, refl))))

pick_executes : RunsTo setting (at 32000 (40 ∷ 1 ∷ 7 ∷ 8 ∷ 9 ∷ [])) (at 0 (8 ∷ 7 ∷ 8 ∷ 9 ∷ []))
unfolding body
pick_executes =
    pick_lem host area addresses memory 0 32000 1 8 40 (7 ∷ 8 ∷ 9 ∷ []) pick-Defined.0 (omega arith)
      (omega arith) refl

-- The five cells at the top of the area; those below are zero.
abbrev on_stack : ℕ → ℕ
on_stack a =
    if a == 4760
    then 40
    else (if a == 4768
        then 1
        else (if a == 4776 then 7 else (if a == 4784 then 8 else (if a == 4792 then 9 else 0))))

abbrev cells : ℕ → Option ℕ
cells a = if leb 4000 a && ltb a 4800 then some (on_stack a) else memory a

abbrev machine : Machine
machine = record {
  cells = cells;
  sp = 4760;
  ip = 32000;
  last_word = 0;
  init_brk = 0;
  input = [];
  output = [];
  stdout_ok = true;
}

outside_is_memory : (a : ℕ) → (leb 4000 a && ltb a 4800) ≡ false → cells a ≡ memory a
outside_is_memory a h = rw h refl

represents : View area cells 4760 (40 ∷ 1 ∷ 7 ∷ 8 ∷ 9 ∷ []) memory
represents = record {
  stack = (refl, (refl, (refl, (refl, (refl, tt)))));
  outside = λ a h. outside_is_memory a h;
  room = λ a h h' h''. ground arith;
  bottom = omega arith;
  top = refl;
}

next-Executes_example : Ends area machine 0 (at 0 (8 ∷ 7 ∷ 8 ∷ 9 ∷ [])) (
    next host
      (cost host area pick_executes.runs)
      (machine_at machine cells 4760 (at 32000 (40 ∷ 1 ∷ 7 ∷ 8 ∷ 9 ∷ []))))
next-Executes_example =
    next-Executes host area addresses (λ z. omega arith) pick_executes
      (cost host area pick_executes.runs) (omega arith) machine cells 4760 represents

nseq_lem_example : RunsTo setting (at 38000 (40 ∷ 3 ∷ 7 ∷ [])) (at 0 (2 ∷ 1 ∷ 0 ∷ 7 ∷ []))
nseq_lem_example =
    nseq_lem pick-Defined (omega arith) nseq-Defined 40 3 (7 ∷ []) (omega arith) (omega arith)

abbrev reversed :
    RunsTo setting (at 41000 (40 ∷ 3 ∷ 4768 ∷ 1 ∷ 2 ∷ 3 ∷ 9 ∷ [])) (at 0 (3 ∷ 2 ∷ 1 ∷ 9 ∷ []))
reversed =
    reverse_lem pick-Defined (omega arith) swap_places-Defined reverse3-Defined reverse-Defined 40 1
      4768 [] (2 ∷ 3 ∷ []) (9 ∷ []) (omega arith) refl

-- Three of the four cells under the arguments.
reverse_lem_example :
    RunsTo setting (at 41000 (40 ∷ 3 ∷ 4768 ∷ 1 ∷ 2 ∷ 3 ∷ 9 ∷ [])) (at 0 (3 ∷ 2 ∷ 1 ∷ 9 ∷ []))
reverse_lem_example =
    reverse_lem pick-Defined (omega arith) swap_places-Defined reverse3-Defined reverse-Defined 40 1
      4768 [] (2 ∷ 3 ∷ []) (9 ∷ []) (omega arith) refl
