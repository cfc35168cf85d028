-- ===== src/Words.antt =====
-- The dictionaries of the interpreters in misc/c before c5.c, one definition for each `Word`.
pub mod First
pub mod Second
pub mod Third
pub mod Fourth
pub mod Scripted
pub mod Standard
pub mod Found
use north_arm.Prelude.{ℕ, zero, suc, ◌≡◌, List, [], ◌∷◌, Bool, true, if◌then◌else◌}
use north_arm.C5.Op.{Op}
use north_arm.Interp.Entries.Names.{same_name}

-- What the `data` field points to; S has the words that are lists.
pub data Datum (S : Type 0) : Type 0 where
  nothing : Datum S
  function : Op → Datum S
  list : S → Datum S
  variable : Datum S

-- A pointer to a word: its name, the C function `code`, the data and the next word.
pub data Word (S : Type 0) : Type 0 where
  null : Word S
  link : (name : List ℕ) (code : Op) (datum : Datum S) (next : Word S) → Word S
