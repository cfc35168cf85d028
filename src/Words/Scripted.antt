-- ===== src/Words/Scripted.antt =====
-- The words that misc/c/c4-scripts.c defines, as global variables that link to each other.
use north_arm.Prelude.{[], ◌∷◌}
use north_arm.C5.Op.{Op}
use north_arm.Early.Scripts.Piece.{Script}
use north_arm.Words.{Word, link, list}
use north_arm.Words.Fourth.{dict, jumprel, over, rpop}
use north_arm.Words.Fourth.Base.{write_hex_int}

unfoldable pub hey : Word Script
unfolding dict
hey = link (b'h' ∷ b'e' ∷ b'y' ∷ []) Op.docol (list Script.hey) dict

unfoldable pub bootstrap : Word Script
unfolding write_hex_int
bootstrap =
    link (b'b' ∷ b'o' ∷ b'o' ∷ b't' ∷ b's' ∷ b't' ∷ b'r' ∷ b'a' ∷ b'p' ∷ []) Op.docol
      (list Script.bootstrap) write_hex_int

unfoldable pub words1 : Word Script
unfolding over
words1 =
    link (b'w' ∷ b'o' ∷ b'r' ∷ b'd' ∷ b's' ∷ b'/' ∷ b'1' ∷ []) Op.docol (list Script.words1) over

unfoldable pub test_rallot_exit : Word Script
unfolding words1
test_rallot_exit =
    link
      (b't' ∷ b'e' ∷ b's' ∷ b't' ∷ b'_' ∷ b'r' ∷ b'a' ∷ b'l' ∷ b'l' ∷ b'o' ∷ b't' ∷ b'_' ∷ b'e'
        ∷ b'x' ∷ b'i' ∷ b't' ∷ [])
      Op.docol (list Script.test_rallot_exit) words1

unfoldable pub test_rallot_return : Word Script
unfolding test_rallot_exit
test_rallot_return =
    link
      (b't' ∷ b'e' ∷ b's' ∷ b't' ∷ b'_' ∷ b'r' ∷ b'a' ∷ b'l' ∷ b'l' ∷ b'o' ∷ b't' ∷ b'_' ∷ b'r'
        ∷ b'e' ∷ b't' ∷ b'u' ∷ b'r' ∷ b'n' ∷ [])
      Op.docol (list Script.test_rallot_return) test_rallot_exit

unfoldable pub test_rallot : Word Script
unfolding test_rallot_return
test_rallot =
    link (b't' ∷ b'e' ∷ b's' ∷ b't' ∷ b'_' ∷ b'r' ∷ b'a' ∷ b'l' ∷ b'l' ∷ b'o' ∷ b't' ∷ []) Op.docol
      (list Script.test_rallot) test_rallot_return

unfoldable pub rpushpop : Word Script
unfolding rpop
rpushpop =
    link (b'r' ∷ b'p' ∷ b'u' ∷ b's' ∷ b'h' ∷ b'p' ∷ b'o' ∷ b'p' ∷ []) Op.docol
      (list Script.rpushpop) rpop

unfoldable pub test_nesting1 : Word Script
unfolding rpushpop
test_nesting1 =
    link
      (b't' ∷ b'e' ∷ b's' ∷ b't' ∷ b'_' ∷ b'n' ∷ b'e' ∷ b's' ∷ b't' ∷ b'i' ∷ b'n' ∷ b'g' ∷ b'1'
        ∷ [])
      Op.docol (list Script.test_nesting1) rpushpop

unfoldable pub test_nesting0 : Word Script
unfolding test_nesting1
test_nesting0 =
    link
      (b't' ∷ b'e' ∷ b's' ∷ b't' ∷ b'_' ∷ b'n' ∷ b'e' ∷ b's' ∷ b't' ∷ b'i' ∷ b'n' ∷ b'g' ∷ b'0'
        ∷ [])
      Op.docol (list Script.test_nesting0) test_nesting1

unfoldable pub test_read : Word Script
unfolding jumprel
test_read =
    link (b't' ∷ b'e' ∷ b's' ∷ b't' ∷ b'-' ∷ b'r' ∷ b'e' ∷ b'a' ∷ b'd' ∷ []) Op.docol
      (list Script.test_read) jumprel

unfoldable pub words : Word Script
unfolding test_read
words = link (b'w' ∷ b'o' ∷ b'r' ∷ b'd' ∷ b's' ∷ []) Op.docol (list Script.words) test_read
