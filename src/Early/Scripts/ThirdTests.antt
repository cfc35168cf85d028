-- ===== src/Early/Scripts/ThirdTests.antt =====
-- The lists of misc/c/c3.c that test words.
use north_arm.Prelude.{List, [], ◌∷◌}
use north_arm.C5.Op.{Op}
use north_arm.Early.Scripts.Piece.{Script, Piece, op, script, text, num, neg}

unfoldable pub test_rallot_exit : List (Piece Script)
test_rallot_exit =
    op Op.rhere
    ∷ op Op.fdup
    ∷ op Op.write_hex_int
    ∷ op Op.literal
    ∷ num 2048
    ∷ op Op.rallot
    ∷ op Op.swap
    ∷ op Op.rhere
    ∷ op Op.fdup
    ∷ op Op.write_hex_int
    ∷ op Op.int_sub
    ∷ op Op.write_int
    ∷ op Op.drop
    ∷ op Op.fexit
    ∷ []

unfoldable pub test_rallot_return : List (Piece Script)
test_rallot_return =
    op Op.rhere
    ∷ op Op.fdup
    ∷ op Op.write_hex_int
    ∷ op Op.literal
    ∷ num 2048
    ∷ op Op.rallot
    ∷ op Op.swap
    ∷ op Op.rhere
    ∷ op Op.fdup
    ∷ op Op.write_hex_int
    ∷ op Op.int_sub
    ∷ op Op.write_int
    ∷ op Op.drop
    ∷ op Op.return0
    ∷ []

unfoldable pub test_rallot : List (Piece Script)
test_rallot =
    op Op.literal
    ∷ text (
        b'\n' ∷ b'r' ∷ b'a' ∷ b'l' ∷ b'l' ∷ b'o' ∷ b't' ∷ b' ' ∷ b'a' ∷ b'n' ∷ b'd' ∷ b' ' ∷ b'r'
        ∷ b'e' ∷ b't' ∷ b'u' ∷ b'r' ∷ b'n' ∷ b's' ∷ [])
    ∷ op Op.cputs
    ∷ op Op.rhere
    ∷ script Script.test_rallot_return
    ∷ op Op.literal
    ∷ text (b'\n' ∷ b'p' ∷ b'o' ∷ b's' ∷ b't' ∷ b' ' ∷ b'r' ∷ b'e' ∷ b't' ∷ [])
    ∷ op Op.cputs
    ∷ op Op.rhere
    ∷ op Op.fdup
    ∷ op Op.write_hex_int
    ∷ op Op.int_sub
    ∷ op Op.write_int
    ∷ op Op.literal
    ∷ text (
        b'\n' ∷ b'r' ∷ b'a' ∷ b'l' ∷ b'l' ∷ b'o' ∷ b't' ∷ b' ' ∷ b'a' ∷ b'n' ∷ b'd' ∷ b' ' ∷ b'e'
        ∷ b'x' ∷ b'i' ∷ b't' ∷ [])
    ∷ op Op.cputs
    ∷ op Op.rhere
    ∷ script Script.test_rallot_exit
    ∷ op Op.literal
    ∷ text (b'\n' ∷ b'p' ∷ b'o' ∷ b's' ∷ b't' ∷ b' ' ∷ b'r' ∷ b'e' ∷ b't' ∷ [])
    ∷ op Op.cputs
    ∷ op Op.rhere
    ∷ op Op.fdup
    ∷ op Op.write_hex_int
    ∷ op Op.int_sub
    ∷ op Op.write_int
    ∷ op Op.return0
    ∷ []

unfoldable pub rpushpop : List (Piece Script)
rpushpop =
    op Op.literal
    ∷ text (b'P' ∷ b'u' ∷ b's' ∷ b'h' ∷ b' ' ∷ b'p' ∷ b'o' ∷ b'p' ∷ [])
    ∷ op Op.cputs
    ∷ op Op.literal
    ∷ neg 305
    ∷ op Op.literal
    ∷ num 123
    ∷ op Op.rpush
    ∷ op Op.literal
    ∷ num 456
    ∷ op Op.rpush
    ∷ op Op.literal
    ∷ num 789
    ∷ op Op.rpush
    ∷ op Op.rpop
    ∷ op Op.write_int
    ∷ op Op.rpop
    ∷ op Op.write_int
    ∷ op Op.rpop
    ∷ op Op.write_int
    ∷ op Op.write_int
    ∷ op Op.return0
    ∷ []

unfoldable pub test_nesting1 : List (Piece Script)
test_nesting1 =
    op Op.literal
    ∷ text (b'N' ∷ b'e' ∷ b's' ∷ b't' ∷ b'i' ∷ b'n' ∷ b'g' ∷ b' ' ∷ b'1' ∷ [])
    ∷ op Op.cputs
    ∷ script Script.hey
    ∷ script Script.hey
    ∷ op Op.return0
    ∷ []

unfoldable pub test_nesting0 : List (Piece Script)
test_nesting0 =
    op Op.literal
    ∷ text (b'N' ∷ b'e' ∷ b's' ∷ b't' ∷ b'i' ∷ b'n' ∷ b'g' ∷ b' ' ∷ b'0' ∷ [])
    ∷ op Op.cputs
    ∷ script Script.test_nesting1
    ∷ script Script.test_nesting1
    ∷ op Op.return0
    ∷ []

unfoldable pub test_read : List (Piece Script)
test_read =
    op Op.literal
    ∷ num 1024
    ∷ op Op.rallot
    ∷ op Op.fdup
    ∷ op Op.write_hex_int
    ∷ op Op.literal
    ∷ num 1024
    ∷ op Op.over
    ∷ op Op.literal
    ∷ num 0
    ∷ op Op.cread
    ∷ op Op.fdup
    ∷ op Op.write_int
    ∷ op Op.fdup
    ∷ op Op.literal
    ∷ num 6
    ∷ op Op.ifjump
    ∷ op Op.literal
    ∷ text (b'E' ∷ b'O' ∷ b'F' ∷ [])
    ∷ op Op.cputs
    ∷ op Op.literal
    ∷ num 2
    ∷ op Op.jumprel
    ∷ op Op.over
    ∷ op Op.cputs
    ∷ op Op.drop
    ∷ op Op.drop
    ∷ op Op.return0
    ∷ []
