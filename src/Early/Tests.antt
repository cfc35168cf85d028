-- ===== src/Early/Tests.antt =====
-- Runs of words of the earlier interpreters on a concrete machine.
use north_arm.Prelude.{ℕ, ◌≡◌, refl, true, Option, none, some, [], ◌∷◌, ◌==◌, if◌then◌else◌, arith}
use north_arm.Prelude.Int.{pos}
use north_arm.Machine.{Machine, int, pointer, done, fail, pure, ◌>>=◌}
use north_arm.C5.Op.{Op, Host}
use north_arm.Variant.Run as Variant
use north_arm.Early.First
use north_arm.Early.Third.{Site}
use north_arm.Early.Dump.{dump_stack, shows_long}
use north_arm.Early.Same.{first_same}
use north_arm.Early.Rows.{printed, dump_stack_long_lem}

abbrev host : Host
host = record { text = λ a. none; return0_at = 8; alloca = λ n m. (0, m.cells); local_at = λ m. 0 }

abbrev site : Site
site = record { host = host; eip_at = 16; dict_at = 24; read = λ fd p n. pure n }

-- A word at 100 with the list at 300 in front of *eip; 5 and 7 on the stack at 800.
abbrev cells : ℕ → Option ℕ
cells a =
    if a == 800
    then some 5
    else (if a == 808
        then some 7
        else (if a == 192
            then some 100
            else (if a == 116 then some 300 else (if a == 792 then some 0 else none))))

abbrev machine : Machine
machine = record {
  cells = cells;
  sp = 800;
  ip = 200;
  last_word = 0;
  init_brk = 0;
  input = [];
  output = [];
  stdout_ok = true;
}

first_same_example :
    First.perform host 8 0 (pure 9) Op.int_sub machine
    ≡ (Variant.perform host 8 16 0 (λ f. fail) fail Op.int_sub >>= λ r. pure 9) machine
first_same_example = first_same host 8 8 16 0 (pure 9) (λ f. fail) fail Op.int_sub refl machine

dump_stack_long_lem_example :
    dump_stack shows_long 3 800 816 machine
    ≡ done tt (
        printed machine (
          pointer 800
          ∷ pointer 816
          ∷ int (pos 2)
          ∷ int (pos 5)
          ∷ pointer 5
          ∷ int (pos 7)
          ∷ pointer 7
          ∷ []))
dump_stack_long_lem_example =
    dump_stack_long_lem (5 ∷ 7 ∷ []) 3 800 machine (refl, (refl, tt)) (omega arith)
