-- ===== src/Words/Fourth.antt =====
-- The words that misc/c/c4.c defines, as global variables that link to each other: those after
-- int_mod; Base has those before.
pub mod Base
use north_arm.Prelude.{[], ◌∷◌}
use north_arm.C5.Op.{Op}
use north_arm.Words.{Word, null, link, function, variable}
use north_arm.Words.Fourth.Base.{int_mod}

module _ {S : Type 0} where
  unfoldable pub int_lte : Word S
  unfolding int_mod
  int_lte = link (b'i' ∷ b'n' ∷ b't' ∷ b'<' ∷ b'=' ∷ []) Op.doop (function Op.int_lte) int_mod

  unfoldable pub int_lt : Word S
  unfolding int_lte
  int_lt = link (b'i' ∷ b'n' ∷ b't' ∷ b'<' ∷ []) Op.doop (function Op.int_lt) int_lte

  unfoldable pub equals : Word S
  unfolding int_lt
  equals =
      link (b'e' ∷ b'q' ∷ b'u' ∷ b'a' ∷ b'l' ∷ b's' ∷ b'?' ∷ []) Op.doop (function Op.equals) int_lt

  unfoldable pub peek : Word S
  unfolding equals
  peek = link (b'p' ∷ b'e' ∷ b'e' ∷ b'k' ∷ []) Op.doop (function Op.peek) equals

  unfoldable pub poke : Word S
  unfolding peek
  poke = link (b'p' ∷ b'o' ∷ b'k' ∷ b'e' ∷ []) Op.doop (function Op.poke) peek

  unfoldable pub peek_byte : Word S
  unfolding poke
  peek_byte =
      link (b'p' ∷ b'e' ∷ b'e' ∷ b'k' ∷ b'-' ∷ b'b' ∷ b'y' ∷ b't' ∷ b'e' ∷ []) Op.doop
        (function Op.peek_byte) poke

  unfoldable pub poke_byte : Word S
  unfolding peek_byte
  poke_byte =
      link (b'p' ∷ b'o' ∷ b'k' ∷ b'e' ∷ b'-' ∷ b'b' ∷ b'y' ∷ b't' ∷ b'e' ∷ []) Op.doop
        (function Op.poke_byte) peek_byte

  unfoldable pub ifjump : Word S
  unfolding poke_byte
  ifjump =
      link (b'i' ∷ b'f' ∷ b'j' ∷ b'u' ∷ b'm' ∷ b'p' ∷ []) Op.doop (function Op.ifjump) poke_byte

  unfoldable pub unlessjump : Word S
  unfolding ifjump
  unlessjump =
      link (b'u' ∷ b'n' ∷ b'l' ∷ b'e' ∷ b's' ∷ b's' ∷ b'j' ∷ b'u' ∷ b'm' ∷ b'p' ∷ []) Op.doop
        (function Op.unlessjump) ifjump

  unfoldable pub drop : Word S
  unfolding unlessjump
  drop = link (b'd' ∷ b'r' ∷ b'o' ∷ b'p' ∷ []) Op.doop (function Op.drop) unlessjump

  unfoldable pub fexit : Word S
  unfolding drop
  fexit = link (b'f' ∷ b'e' ∷ b'x' ∷ b'i' ∷ b't' ∷ []) Op.doop (function Op.fexit) drop

  unfoldable pub over : Word S
  unfolding fexit
  over = link (b'o' ∷ b'v' ∷ b'e' ∷ b'r' ∷ []) Op.doop (function Op.over) fexit

  unfoldable pub rpush : Word S
  unfolding over
  rpush = link (b'r' ∷ b'p' ∷ b'u' ∷ b's' ∷ b'h' ∷ []) Op.doop (function Op.rpush) over

  unfoldable pub rpop : Word S
  unfolding rpush
  rpop = link (b'r' ∷ b'p' ∷ b'o' ∷ b'p' ∷ []) Op.doop (function Op.rpop) rpush

  unfoldable pub cread : Word S
  unfolding rpop
  cread = link (b'c' ∷ b'r' ∷ b'e' ∷ b'a' ∷ b'd' ∷ []) Op.doop (function Op.cread) rpop

  unfoldable pub cwrite : Word S
  unfolding cread
  cwrite = link (b'c' ∷ b'w' ∷ b'r' ∷ b'i' ∷ b't' ∷ b'e' ∷ []) Op.doop (function Op.cwrite) cread

  unfoldable pub jumprel : Word S
  unfolding cwrite
  jumprel =
      link (b'j' ∷ b'u' ∷ b'm' ∷ b'p' ∷ b'r' ∷ b'e' ∷ b'l' ∷ []) Op.doop (function Op.jumprel)
        cwrite

  unfoldable pub roll : Word S
  unfolding jumprel
  roll = link (b'r' ∷ b'o' ∷ b'l' ∷ b'l' ∷ []) Op.doop (function Op.roll) jumprel

  unfoldable pub shift : Word S
  unfolding roll
  shift = link (b's' ∷ b'h' ∷ b'i' ∷ b'f' ∷ b't' ∷ []) Op.doop (function Op.shift) roll

  unfoldable pub rot : Word S
  unfolding shift
  rot = link (b'r' ∷ b'o' ∷ b't' ∷ []) Op.doop (function Op.rot) shift

  unfoldable pub dovar : Word S
  unfolding rot
  dovar = link (b'd' ∷ b'o' ∷ b'v' ∷ b'a' ∷ b'r' ∷ []) Op.doconst (function Op.dovar) rot

  unfoldable pub doivar : Word S
  unfolding dovar
  doivar = link (b'd' ∷ b'o' ∷ b'i' ∷ b'v' ∷ b'a' ∷ b'r' ∷ []) Op.doconst (function Op.doivar) dovar

  unfoldable pub free_ram : Word S
  unfolding doivar
  free_ram =
      link (b'f' ∷ b'r' ∷ b'e' ∷ b'e' ∷ b'-' ∷ b'r' ∷ b'a' ∷ b'm' ∷ []) Op.doop
        (function Op.free_ram) doivar

  unfoldable pub ram_used : Word S
  unfolding free_ram
  ram_used =
      link (b'r' ∷ b'a' ∷ b'm' ∷ b'-' ∷ b'u' ∷ b's' ∷ b'e' ∷ b'd' ∷ []) Op.doop
        (function Op.ram_used) free_ram

  unfoldable pub move : Word S
  unfolding ram_used
  move = link (b'm' ∷ b'o' ∷ b'v' ∷ b'e' ∷ []) Op.doop (function Op.move) ram_used

  unfoldable pub set_dict : Word S
  unfolding move
  set_dict =
      link (b's' ∷ b'e' ∷ b't' ∷ b'-' ∷ b'd' ∷ b'i' ∷ b'c' ∷ b't' ∷ []) Op.doop
        (function Op.set_dict) move

  unfoldable pub dict : Word S
  unfolding set_dict
  dict = link (b'd' ∷ b'i' ∷ b'c' ∷ b't' ∷ []) Op.doop (function Op.dict) set_dict
