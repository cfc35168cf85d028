-- ===== src/Bytes/Tests.antt =====
-- Copies on a concrete machine.
use north_arm.Prelude.{
  ℕ, ◌+◌, ◌*◌, refl, true, Option, none, some, [], ◌∷◌, ◌==◌, if◌then◌else◌, inl, inr, arith,
}
use north_arm.Machine.{Machine}
use north_arm.C5.Memory.{strncpy, memcpy}
use north_arm.Bytes.Copies.{Leaves, memcpy_lem, strncpy_lem}

-- The bytes 72, 105 and 0 at 800, and three bytes 1 at 816.
abbrev cells : ℕ → Option ℕ
cells a =
    if a == 800
    then some (72 + 256 * 105)
    else (if a == 816 then some (1 + 256 * 1 + 256 * 256) else none)

abbrev machine : Machine
machine = record {
  cells = cells;
  sp = 900;
  ip = 200;
  last_word = 0;
  init_brk = 0;
  input = [];
  output = [];
  stdout_ok = true;
}

memcpy_lem_example : Leaves machine 2 816 (72 ∷ 105 ∷ []) (memcpy 816 800 2 machine)
memcpy_lem_example =
    memcpy_lem (72 ∷ 105 ∷ []) (1 ∷ 1 ∷ []) 816 800 machine (refl, (refl, tt)) (refl, (refl, tt))
      refl (inr (omega arith))

-- With room for two characters three bytes are written.
strncpy_lem_example : Leaves machine 2 816 (72 ∷ 105 ∷ 0 ∷ []) (strncpy 816 800 2 machine)
strncpy_lem_example =
    strncpy_lem (72 ∷ 105 ∷ []) (1 ∷ 1 ∷ 1 ∷ []) 816 800 2 machine (refl, (refl, tt))
      (omega arith, (omega arith, tt)) (inl refl) (refl, (refl, (refl, tt))) refl
      (inr (omega arith))
