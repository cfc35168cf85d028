-- ===== src/UnixIo/Tests.antt =====
-- A line read and written on a concrete machine.
use north_arm.Prelude.{
  ℕ, ◌+◌, ◌*◌, refl, true, Option, none, some, [], ◌∷◌, ◌==◌, if◌then◌else◌, inl, inr, arith,
}
use north_arm.Machine.{Machine, ◌>>=◌}
use north_arm.UnixIo.{read, write}
use north_arm.UnixIo.Lines.{Echoes, read-write}

abbrev cells : ℕ → Option ℕ
cells a = if a == 800 then some (72 + 256 * 105) else none

abbrev machine : Machine
machine = record {
  cells = cells;
  sp = 900;
  ip = 200;
  last_word = 0;
  init_brk = 0;
  input = 72 ∷ b'\n' ∷ 105 ∷ [];
  output = [];
  stdout_ok = true;
}

read-write_example :
    Echoes machine (72 ∷ b'\n' ∷ []) (105 ∷ []) ((read 800 5 >>= λ k. write 800 k) machine)
read-write_example =
    read-write 72 (b'\n' ∷ []) (72 ∷ 105 ∷ []) (105 ∷ []) 800 5 machine refl
      (omega arith, omega arith, omega arith) (inr (omega arith, inl refl)) (refl, (refl, tt)) refl
      (omega arith) refl
