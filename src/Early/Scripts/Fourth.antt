-- ===== src/Early/Scripts/Fourth.antt =====
-- The lists of misc/c/c4-scripts.c.
use north_arm.Prelude.{List, [], ◌∷◌}
use north_arm.C5.Op.{Op}
use north_arm.Early.Scripts.Piece.{Script, Piece, op, script, text, num, neg, hello}
use north_arm.Early.Scripts.FourthTests.{
  test_rallot_exit, test_rallot_return, test_rallot, rpushpop, test_nesting1, test_nesting0,
  test_read,
}

unfoldable pub hey : List (Piece Script)
hey = op Op.literal ∷ text (b'H' ∷ b'e' ∷ b'y' ∷ b'!' ∷ []) ∷ op Op.cputs ∷ op Op.return0 ∷ []

unfoldable pub bootstrap : List (Piece Script)
bootstrap =
    op Op.here
    ∷ op Op.rhere
    ∷ op Op.literal
    ∷ text hello
    ∷ op Op.cputs
    ∷ script Script.hey
    ∷ op Op.literal
    ∷ text (b'r' ∷ b'a' ∷ b'l' ∷ b'l' ∷ b'o' ∷ b't' ∷ [])
    ∷ op Op.cputs
    ∷ op Op.literal
    ∷ num 1024
    ∷ op Op.rallot
    ∷ op Op.write_hex_int
    ∷ op Op.literal
    ∷ text (b'\n' ∷ b'1' ∷ b'2' ∷ b'3' ∷ [])
    ∷ op Op.cputs
    ∷ op Op.literal
    ∷ num 1
    ∷ op Op.literal
    ∷ num 2
    ∷ op Op.literal
    ∷ num 3
    ∷ op Op.swap
    ∷ op Op.fdup
    ∷ op Op.write_int
    ∷ op Op.write_int
    ∷ op Op.write_int
    ∷ op Op.write_int
    ∷ op Op.literal
    ∷ text (b'\n' ∷ b'r' ∷ b'h' ∷ b'e' ∷ b'r' ∷ b'e' ∷ [])
    ∷ op Op.cputs
    ∷ op Op.here
    ∷ op Op.swap
    ∷ op Op.fdup
    ∷ op Op.write_hex_int
    ∷ op Op.rhere
    ∷ op Op.fdup
    ∷ op Op.write_hex_int
    ∷ op Op.int_sub
    ∷ op Op.write_int
    ∷ op Op.literal
    ∷ text (b'\n' ∷ b'h' ∷ b'e' ∷ b'r' ∷ b'e' ∷ [])
    ∷ op Op.cputs
    ∷ op Op.int_sub
    ∷ op Op.write_int
    ∷ op Op.literal
    ∷ text (b'\n' ∷ b'd' ∷ b'e' ∷ b'f' ∷ b's' ∷ [])
    ∷ op Op.cputs
    ∷ script Script.hey
    ∷ op Op.return0
    ∷ text hello
    ∷ op Op.cputs
    ∷ []

unfoldable pub words1 : List (Piece Script)
words1 =
    op Op.swap
    ∷ op Op.literal
    ∷ op Op.next
    ∷ op Op.swap
    ∷ op Op.literal
    ∷ text (b'W' ∷ b'o' ∷ b'r' ∷ b'd' ∷ b's' ∷ [])
    ∷ op Op.cputs
    ∷ op Op.over
    ∷ op Op.over
    ∷ op Op.swap
    ∷ op Op.int_sub
    ∷ op Op.write_hex_int
    ∷ op Op.fdup
    ∷ op Op.write_hex_int
    ∷ op Op.fdup
    ∷ op Op.literal
    ∷ num 8
    ∷ op Op.int_add
    ∷ op Op.peek
    ∷ op Op.write_hex_int
    ∷ op Op.fdup
    ∷ op Op.literal
    ∷ num 16
    ∷ op Op.int_add
    ∷ op Op.peek
    ∷ op Op.write_hex_int
    ∷ op Op.fdup
    ∷ op Op.literal
    ∷ num 24
    ∷ op Op.int_add
    ∷ op Op.peek
    ∷ op Op.write_hex_int
    ∷ op Op.fdup
    ∷ op Op.peek
    ∷ op Op.cputs
    ∷ op Op.literal
    ∷ num 24
    ∷ op Op.int_add
    ∷ op Op.peek
    ∷ op Op.fdup
    ∷ op Op.literal
    ∷ neg 36
    ∷ op Op.ifjump
    ∷ op Op.drop
    ∷ op Op.drop
    ∷ op Op.return0
    ∷ []

unfoldable pub words : List (Piece Script)
words = op Op.dict ∷ script Script.words1 ∷ op Op.return0 ∷ []

unfoldable pub list : Script → List (Piece Script)
unfolding hey bootstrap words1 test_rallot_exit test_rallot_return test_rallot rpushpop
    test_nesting1 test_nesting0 test_read words
list Script.hey = hey
list Script.bootstrap = bootstrap
list Script.words1 = words1
list Script.test_rallot_exit = test_rallot_exit
list Script.test_rallot_return = test_rallot_return
list Script.test_rallot = test_rallot
list Script.rpushpop = rpushpop
list Script.test_nesting1 = test_nesting1
list Script.test_nesting0 = test_nesting0
list Script.test_read = test_read
list Script.words = words
