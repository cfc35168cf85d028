-- ===== src/Words/Fourth/Base.antt =====
-- The words that misc/c/c4.c defines first, up to int_mod.
use north_arm.Prelude.{[], ◌∷◌}
use north_arm.C5.Op.{Op}
use north_arm.Words.{Word, null, link, function, variable}

-- S has the words that are lists, of which this file has none.
module _ {S : Type 0} where
  unfoldable pub doconst : Word S
  doconst =
      link (b'd' ∷ b'o' ∷ b'c' ∷ b'o' ∷ b'n' ∷ b's' ∷ b't' ∷ []) Op.doconst (function Op.doconst)
        null

  unfoldable pub doop : Word S
  unfolding doconst
  doop = link (b'd' ∷ b'o' ∷ b'o' ∷ b'p' ∷ []) Op.doconst (function Op.doop) doconst

  unfoldable pub exec : Word S
  unfolding doop
  exec = link (b'e' ∷ b'x' ∷ b'e' ∷ b'c' ∷ []) Op.doop (function Op.exec) doop

  unfoldable pub trace_next : Word S
  unfolding exec
  trace_next =
      link (b'*' ∷ b't' ∷ b'r' ∷ b'a' ∷ b'c' ∷ b'e' ∷ b'-' ∷ b'n' ∷ b'e' ∷ b'x' ∷ b't' ∷ b'*' ∷ [])
        Op.doivar variable exec

  unfoldable pub next : Word S
  unfolding trace_next
  next = link (b'n' ∷ b'e' ∷ b'x' ∷ b't' ∷ []) Op.doop (function Op.next) trace_next

  unfoldable pub cputs : Word S
  unfolding next
  cputs = link (b'c' ∷ b'p' ∷ b'u' ∷ b't' ∷ b's' ∷ []) Op.doop (function Op.cputs) next

  unfoldable pub write_string : Word S
  unfolding cputs
  write_string =
      link (b'w' ∷ b'r' ∷ b'i' ∷ b't' ∷ b'e' ∷ b'-' ∷ b's' ∷ b't' ∷ b'r' ∷ b'i' ∷ b'n' ∷ b'g' ∷ [])
        Op.doop (function Op.write_string) cputs

  unfoldable pub flush : Word S
  unfolding write_string
  flush = link (b'f' ∷ b'l' ∷ b'u' ∷ b's' ∷ b'h' ∷ []) Op.doop (function Op.flush) write_string

  unfoldable pub cexit : Word S
  unfolding flush
  cexit = link (b'c' ∷ b'e' ∷ b'x' ∷ b'i' ∷ b't' ∷ []) Op.doop (function Op.cexit) flush

  unfoldable pub literal : Word S
  unfolding cexit
  literal =
      link (b'l' ∷ b'i' ∷ b't' ∷ b'e' ∷ b'r' ∷ b'a' ∷ b'l' ∷ []) Op.doop (function Op.literal) cexit

  unfoldable pub return0 : Word S
  unfolding literal
  return0 =
      link (b'r' ∷ b'e' ∷ b't' ∷ b'u' ∷ b'r' ∷ b'n' ∷ b'0' ∷ []) Op.doop (function Op.return0)
        literal

  unfoldable pub rallot : Word S
  unfolding return0
  rallot = link (b'r' ∷ b'a' ∷ b'l' ∷ b'l' ∷ b'o' ∷ b't' ∷ []) Op.doop (function Op.rallot) return0

  unfoldable pub here : Word S
  unfolding rallot
  here = link (b'h' ∷ b'e' ∷ b'r' ∷ b'e' ∷ []) Op.doop (function Op.here) rallot

  unfoldable pub rhere : Word S
  unfolding here
  rhere = link (b'r' ∷ b'h' ∷ b'e' ∷ b'r' ∷ b'e' ∷ []) Op.doop (function Op.rhere) here

  unfoldable pub int_sub : Word S
  unfolding rhere
  int_sub =
      link (b'i' ∷ b'n' ∷ b't' ∷ b'-' ∷ b's' ∷ b'u' ∷ b'b' ∷ []) Op.doop (function Op.int_sub) rhere

  unfoldable pub uint_sub : Word S
  unfolding int_sub
  uint_sub =
      link (b'u' ∷ b'i' ∷ b'n' ∷ b't' ∷ b'-' ∷ b's' ∷ b'u' ∷ b'b' ∷ []) Op.doop
        (function Op.uint_sub) int_sub

  unfoldable pub ptr_add : Word S
  unfolding uint_sub
  ptr_add =
      link (b'p' ∷ b't' ∷ b'r' ∷ b'-' ∷ b'a' ∷ b'd' ∷ b'd' ∷ []) Op.doop (function Op.ptr_add)
        uint_sub

  unfoldable pub ptr_sub : Word S
  unfolding ptr_add
  ptr_sub =
      link (b'p' ∷ b't' ∷ b'r' ∷ b'-' ∷ b's' ∷ b'u' ∷ b'b' ∷ []) Op.doop (function Op.ptr_sub)
        ptr_add

  unfoldable pub write_int : Word S
  unfolding ptr_sub
  write_int =
      link (b'w' ∷ b'r' ∷ b'i' ∷ b't' ∷ b'e' ∷ b'-' ∷ b'i' ∷ b'n' ∷ b't' ∷ []) Op.doop
        (function Op.write_int) ptr_sub

  unfoldable pub write_uint : Word S
  unfolding write_int
  write_uint =
      link (b'w' ∷ b'r' ∷ b'i' ∷ b't' ∷ b'e' ∷ b'-' ∷ b'u' ∷ b'i' ∷ b'n' ∷ b't' ∷ []) Op.doop
        (function Op.write_uint) write_int

  unfoldable pub swap : Word S
  unfolding write_uint
  swap = link (b's' ∷ b'w' ∷ b'a' ∷ b'p' ∷ []) Op.doop (function Op.swap) write_uint

  unfoldable pub fdup : Word S
  unfolding swap
  fdup = link (b'd' ∷ b'u' ∷ b'p' ∷ []) Op.doop (function Op.fdup) swap

  unfoldable pub docol : Word S
  unfolding fdup
  docol = link (b'd' ∷ b'o' ∷ b'c' ∷ b'o' ∷ b'l' ∷ []) Op.doconst (function Op.docol) fdup

  unfoldable pub eip : Word S
  unfolding docol
  eip = link (b'e' ∷ b'i' ∷ b'p' ∷ []) Op.doop (function Op.eip) docol

  unfoldable pub abort_next : Word S
  unfolding eip
  abort_next =
      link (b'a' ∷ b'b' ∷ b'o' ∷ b'r' ∷ b't' ∷ b'-' ∷ b'n' ∷ b'e' ∷ b'x' ∷ b't' ∷ []) Op.doop
        (function Op.abort_next) eip

  unfoldable pub write_hex_int : Word S
  unfolding abort_next
  write_hex_int =
      link
        (b'w' ∷ b'r' ∷ b'i' ∷ b't' ∷ b'e' ∷ b'-' ∷ b'h' ∷ b'e' ∷ b'x' ∷ b'-' ∷ b'i' ∷ b'n' ∷ b't'
          ∷ [])
        Op.doop (function Op.write_hex_int) abort_next

  unfoldable pub int_add : Word S
  unfolding write_hex_int
  int_add =
      link (b'i' ∷ b'n' ∷ b't' ∷ b'-' ∷ b'a' ∷ b'd' ∷ b'd' ∷ []) Op.doop (function Op.int_add)
        write_hex_int

  unfoldable pub int_mul : Word S
  unfolding int_add
  int_mul =
      link (b'i' ∷ b'n' ∷ b't' ∷ b'-' ∷ b'm' ∷ b'u' ∷ b'l' ∷ []) Op.doop (function Op.int_mul)
        int_add

  unfoldable pub int_div : Word S
  unfolding int_mul
  int_div =
      link (b'i' ∷ b'n' ∷ b't' ∷ b'-' ∷ b'd' ∷ b'i' ∷ b'v' ∷ []) Op.doop (function Op.int_div)
        int_mul

  unfoldable pub int_mod : Word S
  unfolding int_div
  int_mod =
      link (b'i' ∷ b'n' ∷ b't' ∷ b'-' ∷ b'm' ∷ b'o' ∷ b'd' ∷ []) Op.doop (function Op.int_mod)
        int_div
