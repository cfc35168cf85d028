-- ===== src/Early/Scripts/Piece.antt =====
-- The contents of a word list.
use north_arm.Prelude.{ℕ, List, [], ◌∷◌}
use north_arm.C5.Op.{Op}

-- The words of c3.c and of c4-scripts.c whose code is _docol.
pub data Script : Type 0 where
  hey bootstrap words1 test_rallot_exit test_rallot_return test_rallot rpushpop : Script
  test_nesting1 test_nesting0 test_read words : Script

-- A cell of a list: a word, or the cell that `literal` pushes. `neg n` is the number -n, and S has
-- the words that are lists themselves.
pub data Piece (S : Type 0) : Type 0 where
  op : Op → Piece S
  script : S → Piece S
  text : List ℕ → Piece S
  num : ℕ → Piece S
  neg : ℕ → Piece S

abbrev pub hello : List ℕ
hello = b'H' ∷ b'e' ∷ b'l' ∷ b'l' ∷ b'o' ∷ []
