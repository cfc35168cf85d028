-- ===== src/Words/Third.antt =====
-- The words that misc/c/c3.c defines, as global variables that link to each other.
use north_arm.Prelude.{[], ◌∷◌}
use north_arm.C5.Op.{Op}
use north_arm.Early.Scripts.Piece.{Script}
use north_arm.Words.{Word, null, link, nothing, list}

unfoldable pub next : Word Script
next = link (b'n' ∷ b'e' ∷ b'x' ∷ b't' ∷ []) Op.next nothing null

unfoldable pub cputs : Word Script
unfolding next
cputs = link (b'c' ∷ b'p' ∷ b'u' ∷ b't' ∷ b's' ∷ []) Op.cputs nothing next

unfoldable pub cexit : Word Script
unfolding cputs
cexit = link (b'c' ∷ b'e' ∷ b'x' ∷ b'i' ∷ b't' ∷ []) Op.cexit nothing cputs

unfoldable pub literal : Word Script
unfolding cexit
literal = link (b'l' ∷ b'i' ∷ b't' ∷ b'e' ∷ b'r' ∷ b'a' ∷ b'l' ∷ []) Op.literal nothing cexit

unfoldable pub enter : Word Script
unfolding literal
enter = link (b'e' ∷ b'n' ∷ b't' ∷ b'e' ∷ b'r' ∷ []) Op.enter nothing literal

unfoldable pub return0 : Word Script
unfolding enter
return0 = link (b'r' ∷ b'e' ∷ b't' ∷ b'u' ∷ b'r' ∷ b'n' ∷ b'0' ∷ []) Op.return0 nothing enter

unfoldable pub rallot : Word Script
unfolding return0
rallot = link (b'r' ∷ b'a' ∷ b'l' ∷ b'l' ∷ b'o' ∷ b't' ∷ []) Op.rallot nothing return0

unfoldable pub here : Word Script
unfolding rallot
here = link (b'h' ∷ b'e' ∷ b'r' ∷ b'e' ∷ []) Op.here nothing rallot

unfoldable pub rhere : Word Script
unfolding here
rhere = link (b'r' ∷ b'h' ∷ b'e' ∷ b'r' ∷ b'e' ∷ []) Op.rhere nothing here

unfoldable pub int_sub : Word Script
unfolding rhere
int_sub = link (b'i' ∷ b'n' ∷ b't' ∷ b'-' ∷ b's' ∷ b'u' ∷ b'b' ∷ []) Op.int_sub nothing rhere

unfoldable pub write_int : Word Script
unfolding int_sub
write_int =
    link (b'w' ∷ b'r' ∷ b'i' ∷ b't' ∷ b'e' ∷ b'-' ∷ b'i' ∷ b'n' ∷ b't' ∷ []) Op.write_int nothing
      int_sub

unfoldable pub swap : Word Script
unfolding write_int
swap = link (b's' ∷ b'w' ∷ b'a' ∷ b'p' ∷ []) Op.swap nothing write_int

unfoldable pub fdup : Word Script
unfolding swap
fdup = link (b'f' ∷ b'd' ∷ b'u' ∷ b'p' ∷ []) Op.fdup nothing swap

unfoldable pub docol : Word Script
unfolding fdup
docol = link (b'd' ∷ b'o' ∷ b'c' ∷ b'o' ∷ b'l' ∷ []) Op.docol nothing fdup

unfoldable pub hey : Word Script
unfolding docol
hey = link (b'h' ∷ b'e' ∷ b'y' ∷ []) Op.docol (list Script.hey) docol

unfoldable pub eip : Word Script
unfolding hey
eip = link (b'e' ∷ b'i' ∷ b'p' ∷ []) Op.eip nothing hey

unfoldable pub abort_next : Word Script
unfolding eip
abort_next =
    link (b'a' ∷ b'b' ∷ b'o' ∷ b'r' ∷ b't' ∷ b'-' ∷ b'n' ∷ b'e' ∷ b'x' ∷ b't' ∷ []) Op.abort_next
      nothing eip

unfoldable pub write_hex_int : Word Script
unfolding abort_next
write_hex_int =
    link
      (b'w' ∷ b'r' ∷ b'i' ∷ b't' ∷ b'e' ∷ b'-' ∷ b'h' ∷ b'e' ∷ b'x' ∷ b'-' ∷ b'i' ∷ b'n' ∷ b't'
        ∷ [])
      Op.write_hex_int nothing abort_next

unfoldable pub bootstrap : Word Script
unfolding write_hex_int
bootstrap =
    link (b'b' ∷ b'o' ∷ b'o' ∷ b't' ∷ b's' ∷ b't' ∷ b'r' ∷ b'a' ∷ b'p' ∷ []) Op.docol
      (list Script.bootstrap) write_hex_int

unfoldable pub int_add : Word Script
unfolding bootstrap
int_add = link (b'i' ∷ b'n' ∷ b't' ∷ b'-' ∷ b'a' ∷ b'd' ∷ b'd' ∷ []) Op.int_add nothing bootstrap

unfoldable pub peek : Word Script
unfolding int_add
peek = link (b'p' ∷ b'e' ∷ b'e' ∷ b'k' ∷ []) Op.peek nothing int_add

unfoldable pub ifjump : Word Script
unfolding peek
ifjump = link (b'i' ∷ b'f' ∷ b'j' ∷ b'u' ∷ b'm' ∷ b'p' ∷ []) Op.ifjump nothing peek

unfoldable pub drop : Word Script
unfolding ifjump
drop = link (b'd' ∷ b'r' ∷ b'o' ∷ b'p' ∷ []) Op.drop nothing ifjump

unfoldable pub fexit : Word Script
unfolding drop
fexit = link (b'f' ∷ b'e' ∷ b'x' ∷ b'i' ∷ b't' ∷ []) Op.fexit nothing drop

unfoldable pub over : Word Script
unfolding fexit
over = link (b'o' ∷ b'v' ∷ b'e' ∷ b'r' ∷ []) Op.over nothing fexit

unfoldable pub words1 : Word Script
unfolding over
words1 =
    link (b'w' ∷ b'o' ∷ b'r' ∷ b'd' ∷ b's' ∷ b'/' ∷ b'1' ∷ []) Op.docol (list Script.words1) over

unfoldable pub test_rallot_exit : Word Script
unfolding words1
test_rallot_exit =
    link
      (b't' ∷ b'e' ∷ b's' ∷ b't' ∷ b'_' ∷ b'r' ∷ b'a' ∷ b'l' ∷ b'l' ∷ b'o' ∷ b't' ∷ b'_' ∷ b'e'
        ∷ b'x' ∷ b'i' ∷ b't' ∷ [])
      Op.docol (list Script.test_rallot_exit) words1

unfoldable pub test_rallot_return : Word Script
unfolding test_rallot_exit
test_rallot_return =
    link
      (b't' ∷ b'e' ∷ b's' ∷ b't' ∷ b'_' ∷ b'r' ∷ b'a' ∷ b'l' ∷ b'l' ∷ b'o' ∷ b't' ∷ b'_' ∷ b'r'
        ∷ b'e' ∷ b't' ∷ b'u' ∷ b'r' ∷ b'n' ∷ [])
      Op.docol (list Script.test_rallot_return) test_rallot_exit

unfoldable pub test_rallot : Word Script
unfolding test_rallot_return
test_rallot =
    link (b't' ∷ b'e' ∷ b's' ∷ b't' ∷ b'_' ∷ b'r' ∷ b'a' ∷ b'l' ∷ b'l' ∷ b'o' ∷ b't' ∷ []) Op.docol
      (list Script.test_rallot) test_rallot_return

unfoldable pub rpush : Word Script
unfolding test_rallot
rpush = link (b'r' ∷ b'p' ∷ b'u' ∷ b's' ∷ b'h' ∷ []) Op.rpush nothing test_rallot

unfoldable pub rpop : Word Script
unfolding rpush
rpop = link (b'r' ∷ b'p' ∷ b'o' ∷ b'p' ∷ []) Op.rpop nothing rpush

unfoldable pub rpushpop : Word Script
unfolding rpop
rpushpop =
    link (b'r' ∷ b'p' ∷ b'u' ∷ b's' ∷ b'h' ∷ b'p' ∷ b'o' ∷ b'p' ∷ []) Op.docol
      (list Script.rpushpop) rpop

unfoldable pub test_nesting1 : Word Script
unfolding rpushpop
test_nesting1 =
    link
      (b't' ∷ b'e' ∷ b's' ∷ b't' ∷ b'_' ∷ b'n' ∷ b'e' ∷ b's' ∷ b't' ∷ b'i' ∷ b'n' ∷ b'g' ∷ b'1'
        ∷ [])
      Op.docol (list Script.test_nesting1) rpushpop

unfoldable pub test_nesting0 : Word Script
unfolding test_nesting1
test_nesting0 =
    link
      (b't' ∷ b'e' ∷ b's' ∷ b't' ∷ b'_' ∷ b'n' ∷ b'e' ∷ b's' ∷ b't' ∷ b'i' ∷ b'n' ∷ b'g' ∷ b'0'
        ∷ [])
      Op.docol (list Script.test_nesting0) test_nesting1

unfoldable pub cread : Word Script
unfolding test_nesting0
cread = link (b'c' ∷ b'r' ∷ b'e' ∷ b'a' ∷ b'd' ∷ []) Op.cread nothing test_nesting0

unfoldable pub jumprel : Word Script
unfolding cread
jumprel = link (b'j' ∷ b'u' ∷ b'm' ∷ b'p' ∷ b'r' ∷ b'e' ∷ b'l' ∷ []) Op.jumprel nothing cread

unfoldable pub test_read : Word Script
unfolding jumprel
test_read =
    link (b't' ∷ b'e' ∷ b's' ∷ b't' ∷ b'-' ∷ b'r' ∷ b'e' ∷ b'a' ∷ b'd' ∷ []) Op.docol
      (list Script.test_read) jumprel

unfoldable pub words : Word Script
unfolding cread
words = link (b'w' ∷ b'o' ∷ b'r' ∷ b'd' ∷ b's' ∷ []) Op.docol (list Script.words) cread

unfoldable pub dict : Word Script
unfolding words
dict = link (b'd' ∷ b'i' ∷ b'c' ∷ b't' ∷ []) Op.dict nothing words
