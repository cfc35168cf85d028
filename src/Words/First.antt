-- ===== src/Words/First.antt =====
-- The words that misc/c/c1.c defines, as global variables that link to each other.
use north_arm.Prelude.{[], ◌∷◌}
use north_arm.C5.Op.{Op}
use north_arm.Early.Scripts.FirstScript.{FirstScript}
use north_arm.Words.{Word, null, link, nothing, list}

unfoldable pub next : Word FirstScript
next = link (b'n' ∷ b'e' ∷ b'x' ∷ b't' ∷ []) Op.next nothing null

unfoldable pub cputs : Word FirstScript
unfolding next
cputs = link (b'c' ∷ b'p' ∷ b'u' ∷ b't' ∷ b's' ∷ []) Op.cputs nothing next

unfoldable pub cexit : Word FirstScript
unfolding cputs
cexit = link (b'c' ∷ b'e' ∷ b'x' ∷ b'i' ∷ b't' ∷ []) Op.cexit nothing cputs

unfoldable pub literal : Word FirstScript
unfolding cexit
literal = link (b'l' ∷ b'i' ∷ b't' ∷ b'e' ∷ b'r' ∷ b'a' ∷ b'l' ∷ []) Op.literal nothing cexit

unfoldable pub enter : Word FirstScript
unfolding literal
enter = link (b'e' ∷ b'n' ∷ b't' ∷ b'e' ∷ b'r' ∷ []) Op.enter nothing literal

unfoldable pub return0 : Word FirstScript
unfolding enter
return0 = link (b'r' ∷ b'e' ∷ b't' ∷ b'u' ∷ b'r' ∷ b'n' ∷ b'0' ∷ []) Op.return0 nothing enter

unfoldable pub rallot : Word FirstScript
unfolding return0
rallot = link (b'r' ∷ b'a' ∷ b'l' ∷ b'l' ∷ b'o' ∷ b't' ∷ []) Op.rallot nothing return0

unfoldable pub here : Word FirstScript
unfolding rallot
here = link (b'h' ∷ b'e' ∷ b'r' ∷ b'e' ∷ []) Op.here nothing rallot

unfoldable pub rhere : Word FirstScript
unfolding here
rhere = link (b'r' ∷ b'h' ∷ b'e' ∷ b'r' ∷ b'e' ∷ []) Op.rhere nothing here

unfoldable pub int_sub : Word FirstScript
unfolding rhere
int_sub = link (b'i' ∷ b'n' ∷ b't' ∷ b'-' ∷ b's' ∷ b'u' ∷ b'b' ∷ []) Op.int_sub nothing rhere

unfoldable pub write_int : Word FirstScript
unfolding int_sub
write_int =
    link (b'w' ∷ b'r' ∷ b'i' ∷ b't' ∷ b'e' ∷ b'-' ∷ b'i' ∷ b'n' ∷ b't' ∷ []) Op.write_int nothing
      int_sub

unfoldable pub swap : Word FirstScript
unfolding write_int
swap = link (b's' ∷ b'w' ∷ b'a' ∷ b'p' ∷ []) Op.swap nothing write_int

unfoldable pub dup : Word FirstScript
unfolding swap
dup = link (b'd' ∷ b'u' ∷ b'p' ∷ []) Op.fdup nothing swap

unfoldable pub docol : Word FirstScript
unfolding dup
docol = link (b'd' ∷ b'o' ∷ b'c' ∷ b'o' ∷ b'l' ∷ []) Op.docol nothing dup

unfoldable pub hey : Word FirstScript
unfolding docol
hey = link (b'h' ∷ b'e' ∷ b'y' ∷ []) Op.docol (list FirstScript.hey) docol

unfoldable pub eip : Word FirstScript
unfolding hey
eip = link (b'e' ∷ b'i' ∷ b'p' ∷ []) Op.eip nothing hey

unfoldable pub bootstrap : Word FirstScript
unfolding eip
bootstrap =
    link (b'b' ∷ b'o' ∷ b'o' ∷ b't' ∷ b's' ∷ b't' ∷ b'r' ∷ b'a' ∷ b'p' ∷ []) Op.docol
      (list FirstScript.bootstrap) eip

unfoldable pub int_add : Word FirstScript
unfolding bootstrap
int_add = link (b'i' ∷ b'n' ∷ b't' ∷ b'-' ∷ b'a' ∷ b'd' ∷ b'd' ∷ []) Op.int_add nothing bootstrap

unfoldable pub peek : Word FirstScript
unfolding int_add
peek = link (b'p' ∷ b'e' ∷ b'e' ∷ b'k' ∷ []) Op.peek nothing int_add

unfoldable pub ifjump : Word FirstScript
unfolding peek
ifjump = link (b'i' ∷ b'f' ∷ b'j' ∷ b'u' ∷ b'm' ∷ b'p' ∷ []) Op.ifjump nothing peek

unfoldable pub write_hex_int : Word FirstScript
unfolding ifjump
write_hex_int =
    link
      (b'w' ∷ b'r' ∷ b'i' ∷ b't' ∷ b'e' ∷ b'-' ∷ b'h' ∷ b'e' ∷ b'x' ∷ b'-' ∷ b'i' ∷ b'n' ∷ b't'
        ∷ [])
      Op.write_hex_int nothing ifjump

unfoldable pub drop : Word FirstScript
unfolding write_hex_int
drop = link (b'd' ∷ b'r' ∷ b'o' ∷ b'p' ∷ []) Op.drop nothing write_hex_int

unfoldable pub fexit : Word FirstScript
unfolding drop
fexit = link (b'f' ∷ b'e' ∷ b'x' ∷ b'i' ∷ b't' ∷ []) Op.fexit nothing drop

unfoldable pub words1 : Word FirstScript
unfolding fexit
words1 =
    link (b'w' ∷ b'o' ∷ b'r' ∷ b'd' ∷ b's' ∷ b'/' ∷ b'1' ∷ []) Op.docol (list FirstScript.words1)
      fexit

unfoldable pub dict : Word FirstScript
unfolding words1
dict = link (b'd' ∷ b'i' ∷ b'c' ∷ b't' ∷ []) Op.dict nothing words1

unfoldable pub words : Word FirstScript
unfolding dict
words = link (b'w' ∷ b'o' ∷ b'r' ∷ b'd' ∷ b's' ∷ []) Op.docol (list FirstScript.words) dict
