-- ===== src/Forth/Runs/Tests.antt =====
-- A program that doubles a number through a colon word, run by the C machine.
use north_arm.Prelude.{
  ℕ, ◌+◌, ◌≢◌, ◌&&◌, refl, Option, none, some, List, [], ◌∷◌, ◌==◌, leb, ltb, arith, true,
  if◌then◌else◌,
}
use north_arm.Machine.{Machine, M, done, update}
use north_arm.C5.Op.{Op, Host}
use north_arm.C5.Run.{loop}
use north_arm.Forth.Vm.{Area, Vm, simple}
use north_arm.Forth.View.{View, Ends, at}
use north_arm.Forth.Runs.{Runs, decode, cost}
use north_arm.Forth.Runs.Refine.{loop-Runs}

abbrev table : {A : Type 0} → List (ℕ × A) → ℕ → Option A
table [] k = none
table ((a, v) ∷ entries) k = if a == k then some v else table entries k

abbrev text : ℕ → Option Op
text = table (
    (1, Op.docol)
    ∷ (2, Op.doop)
    ∷ (3, Op.swap)
    ∷ (4, Op.fdup)
    ∷ (5, Op.int_add)
    ∷ (6, Op.return0)
    ∷ [])

abbrev host : Host
host = record { text = text; return0_at = 1096; alloca = λ n m. (0, m.cells); local_at = λ m. 0 }

abbrev area : Area
area = record { base = 4000; limit = 4096 }

-- Words at 1000 (doubling), 1032 (swap), 1064 (fdup), 1096 (return0) and 1128 (int_add); the list of
-- the first at 2000, and the list that runs it at 3000.
abbrev memory : ℕ → Option ℕ
memory = table (
    (1008, 1)
    ∷ (1016, 2000)
    ∷ (1040, 2)
    ∷ (1048, 3)
    ∷ (1072, 2)
    ∷ (1080, 4)
    ∷ (1104, 2)
    ∷ (1112, 6)
    ∷ (1136, 2)
    ∷ (1144, 5)
    ∷ (2000, 1032)
    ∷ (2008, 1064)
    ∷ (2016, 1128)
    ∷ (2024, 1032)
    ∷ (2032, 1096)
    ∷ (3000, 1000)
    ∷ (3008, 0)
    ∷ [])

abbrev start : Vm
start = record { ip = 3008; stack = 21 ∷ []; memory = memory; last_word = 0 }

abbrev finish : Vm
finish = record { ip = 3016; stack = 42 ∷ []; memory = memory; last_word = 0 }

-- The state in the doubling word, before the item at `ip`.
abbrev inner : ℕ → List ℕ → Vm
inner ip stack = record { ip = ip; stack = stack; memory = memory; last_word = 0 }

unfoldable doubling : Runs host area 1032 (inner 2008 (4088 ∷ 21 ∷ [])) (inner 0 (42 ∷ []))
unfolding decode simple
doubling = Runs.op Op.swap refl (omega arith) refl refl (
    Runs.op Op.fdup refl (omega arith) refl refl (
      Runs.op Op.int_add refl (omega arith) refl refl (
        Runs.op Op.swap refl (omega arith) refl refl
          (Runs.return 4088 (42 ∷ []) refl (omega arith) refl refl))))

unfoldable doubles : Runs host area 1000 start finish
unfolding decode
doubles = Runs.call 2000 refl (omega arith) refl refl doubling refl (Runs.stopped refl)

-- The cells below the stack are zero.
abbrev cells : ℕ → Option ℕ
cells a = if leb 4000 a && ltb a 4096 then (if a == 4088 then some 21 else some 0) else memory a

abbrev machine : Machine
machine = record {
  cells = cells;
  sp = 4088;
  ip = 3008;
  last_word = 0;
  init_brk = 0;
  input = [];
  output = [];
  stdout_ok = true;
}

represents : View area cells 4088 (21 ∷ []) memory
represents = record {
  stack = (refl, tt);
  outside = λ a h. ground arith;
  room = λ a h h' h''. ground arith;
  bottom = omega arith;
  top = refl;
}

nonzero : host.return0_at ≢ 0
nonzero e = omega arith

loop-Runs_example : Ends area machine 0 finish (loop host 26 1000 (at machine cells 4088 start))
unfolding cost doubles doubling
loop-Runs_example =
    loop-Runs host area nonzero doubles 26 (omega arith) machine cells 4088 represents

-- A stack with the doubling word on it, and a list that drops the frame it is given.
abbrev called : Machine
called = record machine { cells = update cells 4080 1000; sp = 4080 }

abbrev returned : Machine
returned = record called {
  cells = update (update (update cells 4080 1000) 4080 2000) 4080 4088;
  sp = 4088;
  ip = 0;
}

abbrev drops : M ℕ
drops m = done 0 (record m { sp = m.sp + 8; ip = 0 })
