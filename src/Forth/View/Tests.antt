-- ===== src/Forth/View/Tests.antt =====
-- A word of the C machine on a concrete stack.
use north_arm.Prelude.{
  ℕ, ◌&&◌, refl, Option, none, some, [], ◌∷◌, leb, ltb, ◌==◌, arith, true, if◌then◌else◌,
}
use north_arm.Machine.{Machine, fail}
use north_arm.C5.Op.{Op, Host}
use north_arm.C5.Run.{perform}
use north_arm.Forth.Vm.{Area, effect, shuffle}
use north_arm.Forth.View.{View, Ends, at, vm_of}
use north_arm.Forth.View.Effect.{effect-Simulates}

abbrev host : Host
host = record { text = λ a. none; return0_at = 8; alloca = λ n m. (0, m.cells); local_at = λ m. 0 }

abbrev area : Area
area = record { base = 80; limit = 112 }

-- One cell, which holds the next word.
abbrev memory : ℕ → Option ℕ
memory a = if a == 200 then some 1000 else none

abbrev cells : ℕ → Option ℕ
cells a =
    if leb 80 a && ltb a 112
    then (if a == 88
        then some 1
        else (if a == 96 then some 2 else (if a == 104 then some 3 else some 0)))
    else memory a

abbrev machine : Machine
machine = record {
  cells = cells;
  sp = 88;
  ip = 200;
  last_word = 0;
  init_brk = 0;
  input = [];
  output = [];
  stdout_ok = true;
}

represents : View area cells 88 (1 ∷ 2 ∷ 3 ∷ []) memory
represents = record {
  stack = (refl, (refl, (refl, tt)));
  outside = λ a h. ground arith;
  room = λ a h h' h''. ground arith;
  bottom = omega arith;
  top = refl;
}

effect-Simulates_example : Ends area machine 1000 (vm_of 208 (2 ∷ 3 ∷ 1 ∷ []) memory 0) (
    perform host 0
      (λ f. fail)
      fail
      Op.roll
      (at machine cells 88 (vm_of 200 (1 ∷ 2 ∷ 3 ∷ []) memory 0)))
unfolding effect shuffle
effect-Simulates_example =
    effect-Simulates host area 0 (λ f. fail) fail Op.roll (1 ∷ 2 ∷ 3 ∷ []) machine cells memory 88
      200 0 1000 (vm_of 200 (2 ∷ 3 ∷ 1 ∷ []) memory 0) refl refl represents (omega arith)
