-- ===== src/Early/Scripts/Second.antt =====
-- The lists of misc/c/c2.c, without STACK_RETADDR.
use north_arm.Prelude.{List, [], ◌∷◌}
use north_arm.C5.Op.{Op}
use north_arm.Early.Scripts.SecondScript.{SecondScript}
use north_arm.Early.Scripts.Piece.{Piece, op, script, text, num, neg, hello}

unfoldable pub hey : List (Piece SecondScript)
hey = op Op.literal ∷ text (b'H' ∷ b'e' ∷ b'y' ∷ b'!' ∷ []) ∷ op Op.cputs ∷ op Op.return0 ∷ []

unfoldable pub bootstrap : List (Piece SecondScript)
bootstrap =
    op Op.here
    ∷ op Op.rhere
    ∷ op Op.literal
    ∷ text hello
    ∷ op Op.cputs
    ∷ op Op.literal
    ∷ num 1024
    ∷ op Op.rallot
    ∷ op Op.write_int
    ∷ op Op.literal
    ∷ text (b'\n' ∷ b'1' ∷ b'2' ∷ b'3' ∷ [])
    ∷ op Op.cputs
    ∷ op Op.literal
    ∷ num 1
    ∷ op Op.literal
    ∷ num 2
    ∷ op Op.literal
    ∷ num 3
    ∷ op Op.swap
    ∷ op Op.fdup
    ∷ op Op.write_int
    ∷ op Op.write_int
    ∷ op Op.write_int
    ∷ op Op.write_int
    ∷ op Op.literal
    ∷ text (b'\n' ∷ b'r' ∷ b'h' ∷ b'e' ∷ b'r' ∷ b'e' ∷ [])
    ∷ op Op.cputs
    ∷ op Op.here
    ∷ op Op.swap
    ∷ op Op.fdup
    ∷ op Op.write_int
    ∷ op Op.rhere
    ∷ op Op.fdup
    ∷ op Op.write_int
    ∷ op Op.int_sub
    ∷ op Op.write_int
    ∷ op Op.literal
    ∷ text (b'\n' ∷ b'h' ∷ b'e' ∷ b'r' ∷ b'e' ∷ [])
    ∷ op Op.cputs
    ∷ op Op.int_sub
    ∷ op Op.write_int
    ∷ op Op.literal
    ∷ text (b'\n' ∷ b'd' ∷ b'e' ∷ b'f' ∷ b's' ∷ [])
    ∷ op Op.cputs
    ∷ script SecondScript.hey
    ∷ op Op.literal
    ∷ num 10
    ∷ op Op.return0
    ∷ text hello
    ∷ op Op.cputs
    ∷ []

unfoldable pub words1 : List (Piece SecondScript)
words1 =
    op Op.literal
    ∷ text (b'W' ∷ b'o' ∷ b'r' ∷ b'd' ∷ b's' ∷ [])
    ∷ op Op.cputs
    ∷ op Op.rhere
    ∷ op Op.write_hex_int
    ∷ op Op.fdup
    ∷ op Op.write_hex_int
    ∷ op Op.fdup
    ∷ op Op.peek
    ∷ op Op.cputs
    ∷ op Op.literal
    ∷ num 24
    ∷ op Op.int_add
    ∷ op Op.peek
    ∷ op Op.fdup
    ∷ op Op.literal
    ∷ neg 15
    ∷ op Op.ifjump
    ∷ op Op.drop
    ∷ op Op.return0
    ∷ []

unfoldable pub words : List (Piece SecondScript)
words = op Op.dict ∷ script SecondScript.words1 ∷ op Op.return0 ∷ []

unfoldable pub rallot_exit : List (Piece SecondScript)
rallot_exit =
    op Op.rhere
    ∷ op Op.fdup
    ∷ op Op.write_hex_int
    ∷ op Op.literal
    ∷ num 2048
    ∷ op Op.rallot
    ∷ op Op.swap
    ∷ op Op.rhere
    ∷ op Op.fdup
    ∷ op Op.write_hex_int
    ∷ op Op.int_sub
    ∷ op Op.write_int
    ∷ op Op.drop
    ∷ op Op.fexit
    ∷ []

unfoldable pub rallot_return : List (Piece SecondScript)
rallot_return =
    op Op.rhere
    ∷ op Op.fdup
    ∷ op Op.write_hex_int
    ∷ op Op.literal
    ∷ num 2048
    ∷ op Op.rallot
    ∷ op Op.swap
    ∷ op Op.rhere
    ∷ op Op.fdup
    ∷ op Op.write_hex_int
    ∷ op Op.int_sub
    ∷ op Op.write_int
    ∷ op Op.drop
    ∷ op Op.return0
    ∷ []

unfoldable pub rallot2 : List (Piece SecondScript)
rallot2 =
    op Op.literal
    ∷ text (
        b'\n' ∷ b'r' ∷ b'a' ∷ b'l' ∷ b'l' ∷ b'o' ∷ b't' ∷ b' ' ∷ b'a' ∷ b'n' ∷ b'd' ∷ b' ' ∷ b'r'
        ∷ b'e' ∷ b't' ∷ b'u' ∷ b'r' ∷ b'n' ∷ b's' ∷ [])
    ∷ op Op.cputs
    ∷ op Op.rhere
    ∷ script SecondScript.rallot_return
    ∷ op Op.literal
    ∷ text (b'\n' ∷ b'p' ∷ b'o' ∷ b's' ∷ b't' ∷ b' ' ∷ b'r' ∷ b'e' ∷ b't' ∷ [])
    ∷ op Op.cputs
    ∷ op Op.rhere
    ∷ op Op.fdup
    ∷ op Op.write_hex_int
    ∷ op Op.int_sub
    ∷ op Op.write_int
    ∷ op Op.literal
    ∷ text (
        b'\n' ∷ b'r' ∷ b'a' ∷ b'l' ∷ b'l' ∷ b'o' ∷ b't' ∷ b' ' ∷ b'a' ∷ b'n' ∷ b'd' ∷ b' ' ∷ b'e'
        ∷ b'x' ∷ b'i' ∷ b't' ∷ [])
    ∷ op Op.cputs
    ∷ op Op.rhere
    ∷ script SecondScript.rallot_exit
    ∷ op Op.literal
    ∷ text (b'\n' ∷ b'p' ∷ b'o' ∷ b's' ∷ b't' ∷ b' ' ∷ b'r' ∷ b'e' ∷ b't' ∷ [])
    ∷ op Op.cputs
    ∷ op Op.rhere
    ∷ op Op.fdup
    ∷ op Op.write_hex_int
    ∷ op Op.int_sub
    ∷ op Op.write_int
    ∷ op Op.return0
    ∷ []

unfoldable pub list : SecondScript → List (Piece SecondScript)
unfolding hey bootstrap words1 words rallot_exit rallot_return rallot2
list SecondScript.hey = hey
list SecondScript.bootstrap = bootstrap
list SecondScript.words1 = words1
list SecondScript.words = words
list SecondScript.rallot_exit = rallot_exit
list SecondScript.rallot_return = rallot_return
list SecondScript.rallot2 = rallot2
