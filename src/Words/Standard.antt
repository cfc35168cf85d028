-- ===== src/Words/Standard.antt =====
-- The words that misc/c/c4-words.c and misc/c/c4-words-def.c put on top of those of misc/c/c4.c.
use north_arm.Prelude.{List, [], ◌∷◌}
use north_arm.C5.Op.{Op}
use north_arm.Early.Scripts.Piece.{Piece, op, script, text, hello}
use north_arm.Words.{Word, link, list}
use north_arm.Words.Fourth.{dict}

-- The words whose code is _docol.
pub data Standard : Type 0 where
  words1_list words_list boot_list : Standard

unfoldable pub boot_pieces : List (Piece Standard)
boot_pieces =
    op Op.literal ∷ text hello ∷ op Op.cputs ∷ script Standard.words_list ∷ op Op.return0 ∷ []

unfoldable pub words1 : Word Standard
unfolding dict
words1 =
    link (b'w' ∷ b'o' ∷ b'r' ∷ b'd' ∷ b's' ∷ b'1' ∷ []) Op.docol (list Standard.words1_list) dict

unfoldable pub words : Word Standard
unfolding words1
words = link (b'w' ∷ b'o' ∷ b'r' ∷ b'd' ∷ b's' ∷ []) Op.docol (list Standard.words_list) words1

unfoldable pub boot : Word Standard
unfolding words
boot = link (b'b' ∷ b'o' ∷ b'o' ∷ b't' ∷ []) Op.docol (list Standard.boot_list) words
