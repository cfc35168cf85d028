-- ===== src/Early/Scripts/First.antt =====
-- The lists of misc/c/c1.c, without STACK_RETADDR.
use north_arm.Prelude.{List, [], ◌∷◌}
use north_arm.C5.Op.{Op}
use north_arm.Early.Scripts.FirstScript.{FirstScript}
use north_arm.Early.Scripts.Piece.{Piece, op, script, text, num, neg, hello}

unfoldable pub hey : List (Piece FirstScript)
hey = op Op.literal ∷ text (b'H' ∷ b'e' ∷ b'y' ∷ b'!' ∷ []) ∷ op Op.cputs ∷ op Op.return0 ∷ []

unfoldable pub bootstrap : List (Piece FirstScript)
bootstrap =
    op Op.here
    ∷ op Op.rhere
    ∷ op Op.literal
    ∷ text hello
    ∷ op Op.cputs
    ∷ op Op.literal
    ∷ num 1024
    ∷ op Op.rallot
    ∷ op Op.write_int
    ∷ op Op.literal
    ∷ text (b'\n' ∷ b'1' ∷ b'2' ∷ b'3' ∷ [])
    ∷ op Op.cputs
    ∷ op Op.literal
    ∷ num 1
    ∷ op Op.literal
    ∷ num 2
    ∷ op Op.literal
    ∷ num 3
    ∷ op Op.swap
    ∷ op Op.fdup
    ∷ op Op.write_int
    ∷ op Op.write_int
    ∷ op Op.write_int
    ∷ op Op.write_int
    ∷ op Op.literal
    ∷ text (b'\n' ∷ b'r' ∷ b'h' ∷ b'e' ∷ b'r' ∷ b'e' ∷ [])
    ∷ op Op.cputs
    ∷ op Op.here
    ∷ op Op.swap
    ∷ op Op.fdup
    ∷ op Op.write_int
    ∷ op Op.rhere
    ∷ op Op.fdup
    ∷ op Op.write_int
    ∷ op Op.int_sub
    ∷ op Op.write_int
    ∷ op Op.literal
    ∷ text (b'\n' ∷ b'h' ∷ b'e' ∷ b'r' ∷ b'e' ∷ [])
    ∷ op Op.cputs
    ∷ op Op.int_sub
    ∷ op Op.write_int
    ∷ op Op.literal
    ∷ text (b'\n' ∷ b'd' ∷ b'e' ∷ b'f' ∷ b's' ∷ [])
    ∷ op Op.cputs
    ∷ script FirstScript.hey
    ∷ op Op.literal
    ∷ num 10
    ∷ op Op.return0
    ∷ text hello
    ∷ op Op.cputs
    ∷ []

unfoldable pub words1 : List (Piece FirstScript)
words1 =
    op Op.literal
    ∷ text (b'W' ∷ b'o' ∷ b'r' ∷ b'd' ∷ b's' ∷ [])
    ∷ op Op.cputs
    ∷ op Op.rhere
    ∷ op Op.write_hex_int
    ∷ op Op.fdup
    ∷ op Op.write_hex_int
    ∷ op Op.fdup
    ∷ op Op.peek
    ∷ op Op.cputs
    ∷ op Op.literal
    ∷ num 24
    ∷ op Op.int_add
    ∷ op Op.peek
    ∷ op Op.fdup
    ∷ op Op.literal
    ∷ neg 15
    ∷ op Op.ifjump
    ∷ op Op.drop
    ∷ op Op.return0
    ∷ []

unfoldable pub words : List (Piece FirstScript)
words = op Op.dict ∷ script FirstScript.words1 ∷ op Op.return0 ∷ []

unfoldable pub list : FirstScript → List (Piece FirstScript)
unfolding hey bootstrap words1 words
list FirstScript.hey = hey
list FirstScript.bootstrap = bootstrap
list FirstScript.words1 = words1
list FirstScript.words = words
