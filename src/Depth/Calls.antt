-- ===== src/Depth/Calls.antt =====
-- The C functions of misc/c/c5.c against the cells they take and leave.
use north_arm.Prelude.{ℕ, ◌+◌, ◌-◌, ◌*◌, ◌≡◌, true, arith}
use north_arm.Machine.{Machine, M, done}
use north_arm.UnixIo.{read, write}
use north_arm.C5.Op.{Op, Host}
use north_arm.C5.Data
use north_arm.C5.Data.{next_op}
use north_arm.C5.Arith
use north_arm.C5.Shuffle
use north_arm.C5.Memory
use north_arm.C5.Control
use north_arm.C5.Io
use north_arm.C5.Io.{c_string}
use north_arm.C5.Run.{perform}
use north_arm.Depth.Arity.{is_fixed, takes, leaves}
use north_arm.Depth.Moves.{Moves-cputs, Moves-write_string, Moves-transfer, Keeps-read, Keeps-write}

-- A C function of c5.c for which is_fixed holds moves *sp up by the cells of takes and down by
-- those of leaves whenever it returns, whatever the machine and the other functions are.
pub perform-takes :
    (host : Host) (fuel : ℕ) (call : ℕ → M ℕ) (next : M ℕ) (o : Op)
    → is_fixed o ≡ true
    → (m m' : Machine) (r : ℕ) → perform host fuel call next o m ≡ done r m'
    → m'.sp ≡ m.sp + 8 * takes o - 8 * leaves o
unfolding perform Data.next_op Io.cread Io.cwrite Io.flush Arith.traps Data.set_last_word
    Data.get_last_word Data.local Data.start Memory.sign_extend Data.doconst Data.dovar Data.doivar
    Data.literal Data.here Data.rhere Arith.int_sub Arith.uint_sub Arith.ptr_add Arith.ptr_sub
    Io.write_int Io.write_uint Shuffle.swap Shuffle.fdup Data.eip Io.write_hex_int Arith.int_add
    Arith.int_mul Arith.int_div Arith.int_mod Arith.bsl Arith.bsr Arith.int_lte Arith.int_lt
    Arith.equals Memory.peek Memory.poke Memory.peek_byte Memory.poke_byte Control.ifjump
    Control.unlessjump Shuffle.drop Shuffle.over Control.jumprel Shuffle.roll Shuffle.shift
    Shuffle.rot Data.free_ram Data.ram_used Data.set_dict Data.dict
perform-takes host fuel call next Op.doconst f m m' r h = ground arith
perform-takes host fuel call next Op.dovar f m m' r h = ground arith
perform-takes host fuel call next Op.doivar f m m' r h = ground arith
perform-takes host fuel call next Op.cputs f m m' r h = omega (arith, Moves-cputs fuel m m' r h)
perform-takes host fuel call next Op.write_string f m m' r h =
    omega (arith, Moves-write_string fuel m m' r h)
perform-takes host fuel call next Op.flush f m m' r h = ground arith
perform-takes host fuel call next Op.literal f m m' r h = ground arith
perform-takes host fuel call next Op.here f m m' r h = ground arith
perform-takes host fuel call next Op.rhere f m m' r h = ground arith
perform-takes host fuel call next Op.int_sub f m m' r h = ground arith
perform-takes host fuel call next Op.uint_sub f m m' r h = ground arith
perform-takes host fuel call next Op.ptr_add f m m' r h = ground arith
perform-takes host fuel call next Op.ptr_sub f m m' r h = ground arith
perform-takes host fuel call next Op.write_int f m m' r h = ground arith
perform-takes host fuel call next Op.write_uint f m m' r h = ground arith
perform-takes host fuel call next Op.swap f m m' r h = ground arith
perform-takes host fuel call next Op.fdup f m m' r h = ground arith
perform-takes host fuel call next Op.eip f m m' r h = ground arith
perform-takes host fuel call next Op.write_hex_int f m m' r h = ground arith
perform-takes host fuel call next Op.int_add f m m' r h = ground arith
perform-takes host fuel call next Op.int_mul f m m' r h = ground arith
perform-takes host fuel call next Op.int_div f m m' r h = ground arith
perform-takes host fuel call next Op.int_mod f m m' r h = ground arith
perform-takes host fuel call next Op.bsl f m m' r h = ground arith
perform-takes host fuel call next Op.bsr f m m' r h = ground arith
perform-takes host fuel call next Op.int_lte f m m' r h = ground arith
perform-takes host fuel call next Op.int_lt f m m' r h = ground arith
perform-takes host fuel call next Op.equals f m m' r h = ground arith
perform-takes host fuel call next Op.peek f m m' r h = ground arith
perform-takes host fuel call next Op.poke f m m' r h = ground arith
perform-takes host fuel call next Op.peek_byte f m m' r h = ground arith
perform-takes host fuel call next Op.poke_byte f m m' r h = ground arith
perform-takes host fuel call next Op.ifjump f m m' r h = ground arith
perform-takes host fuel call next Op.unlessjump f m m' r h = ground arith
perform-takes host fuel call next Op.drop f m m' r h = ground arith
perform-takes host fuel call next Op.over f m m' r h = ground arith
perform-takes host fuel call next Op.jumprel f m m' r h = ground arith
perform-takes host fuel call next Op.roll f m m' r h = ground arith
perform-takes host fuel call next Op.shift f m m' r h = ground arith
perform-takes host fuel call next Op.rot f m m' r h = ground arith
perform-takes host fuel call next Op.free_ram f m m' r h = ground arith
perform-takes host fuel call next Op.ram_used f m m' r h = ground arith
perform-takes host fuel call next Op.set_dict f m m' r h = ground arith
perform-takes host fuel call next Op.dict f m m' r h = ground arith
perform-takes host fuel call next Op.cread f m m' r h =
    omega (arith, Moves-transfer read Keeps-read m m' r h)
perform-takes host fuel call next Op.cwrite f m m' r h =
    omega (arith, Moves-transfer write Keeps-write m m' r h)
perform-takes host fuel call next _ f m m' r h = cc
