-- ===== src/Variant/Tests.antt =====
-- Runs of words on a concrete machine.
use north_arm.Prelude.{ℕ, ◌≡◌, refl, true, Option, none, some, [], ◌==◌, if◌then◌else◌}
use north_arm.Machine.{Machine, fail}
use north_arm.C5.Op.{Op, Host}
use north_arm.C5.Run.{perform}
use north_arm.Variant.Run as Variant
use north_arm.Variant.Same.{fetches}
use north_arm.Variant.Shared.{perform_same}

abbrev host : Host
host = record { text = λ a. none; return0_at = 8; alloca = λ n m. (0, m.cells); local_at = λ m. 0 }

-- A word at 100 with the list at 300, on top of a stack at 800.
abbrev cells : ℕ → Option ℕ
cells a =
    if a == 800
    then some 100
    else (if a == 808
        then some 7
        else (if a == 116 then some 300 else (if a == 200 then some 5 else none)))

abbrev machine : Machine
machine = record {
  cells = cells;
  sp = 800;
  ip = 200;
  last_word = 0;
  init_brk = 0;
  input = [];
  output = [];
  stdout_ok = true;
}

perform_same_example :
    perform host 0 (λ f. fail) fail Op.int_mul machine
    ≡ fetches (Variant.perform host 8 16 0 (λ f. fail) fail Op.int_mul) machine
perform_same_example =
    perform_same host 8 16 0 (λ f. fail) fail (λ f. fail) fail Op.int_mul machine refl
