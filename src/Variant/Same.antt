-- ===== src/Variant/Same.antt =====
-- Words that misc/c/c4.c and misc/c/c5.c define alike.
use north_arm.Prelude.{ℕ, ◌≡◌, arith}
use north_arm.Machine.{Machine, M, ◌>>=◌}
use north_arm.C5.Data.{next_op}
use north_arm.C5.Shuffle as Shuffle5
use north_arm.C5.Arith as Arith5
use north_arm.C5.Data as Data5
use north_arm.C5.Memory as Memory5
use north_arm.C5.Control as Control5
use north_arm.C5.Io as Io5
use north_arm.Variant.Stack
use north_arm.Variant.Data
use north_arm.Variant.Control
use north_arm.Variant.Io
use north_arm.Variant.Signal.{Signal}

-- The word, and then the fetch of the next one.
abbrev pub fetches : M Signal → M ℕ
fetches word = word >>= λ r. next_op

pub swap_same : (m : Machine) → Shuffle5.swap m ≡ fetches Stack.swap m
unfolding Shuffle5.swap Stack.swap
swap_same m = ground arith

pub fdup_same : (m : Machine) → Shuffle5.fdup m ≡ fetches Stack.fdup m
unfolding Shuffle5.fdup Stack.fdup
fdup_same m = ground arith

pub drop_same : (m : Machine) → Shuffle5.drop m ≡ fetches Stack.drop m
unfolding Shuffle5.drop Stack.drop
drop_same m = ground arith

pub roll_same : (m : Machine) → Shuffle5.roll m ≡ fetches Stack.roll m
unfolding Shuffle5.roll Stack.roll
roll_same m = ground arith

pub shift_same : (m : Machine) → Shuffle5.shift m ≡ fetches Stack.shift m
unfolding Shuffle5.shift Stack.shift
shift_same m = ground arith

pub rot_same : (m : Machine) → Shuffle5.rot m ≡ fetches Stack.rot m
unfolding Shuffle5.rot Stack.rot
rot_same m = ground arith

pub int_sub_same : (m : Machine) → Arith5.int_sub m ≡ fetches Stack.int_sub m
unfolding Arith5.int_sub Stack.int_sub
int_sub_same m = ground arith

pub uint_sub_same : (m : Machine) → Arith5.uint_sub m ≡ fetches Stack.uint_sub m
unfolding Arith5.uint_sub Stack.uint_sub
uint_sub_same m = ground arith

pub ptr_add_same : (m : Machine) → Arith5.ptr_add m ≡ fetches Stack.ptr_add m
unfolding Arith5.ptr_add Stack.ptr_add
ptr_add_same m = ground arith

pub ptr_sub_same : (m : Machine) → Arith5.ptr_sub m ≡ fetches Stack.ptr_sub m
unfolding Arith5.ptr_sub Stack.ptr_sub
ptr_sub_same m = ground arith

pub int_add_same : (m : Machine) → Arith5.int_add m ≡ fetches Stack.int_add m
unfolding Arith5.int_add Stack.int_add
int_add_same m = ground arith

pub int_mul_same : (m : Machine) → Arith5.int_mul m ≡ fetches Stack.int_mul m
unfolding Arith5.int_mul Stack.int_mul
int_mul_same m = ground arith

pub int_div_same : (m : Machine) → Arith5.int_div m ≡ fetches Stack.int_div m
unfolding Arith5.int_div Stack.int_div
int_div_same m = ground arith

pub int_mod_same : (m : Machine) → Arith5.int_mod m ≡ fetches Stack.int_mod m
unfolding Arith5.int_mod Stack.int_mod
int_mod_same m = ground arith

pub int_lte_same : (m : Machine) → Arith5.int_lte m ≡ fetches Stack.int_lte m
unfolding Arith5.int_lte Stack.int_lte
int_lte_same m = ground arith

pub int_lt_same : (m : Machine) → Arith5.int_lt m ≡ fetches Stack.int_lt m
unfolding Arith5.int_lt Stack.int_lt
int_lt_same m = ground arith

pub equals_same : (m : Machine) → Arith5.equals m ≡ fetches Stack.equals m
unfolding Arith5.equals Stack.equals
equals_same m = ground arith

pub doconst_same : (m : Machine) → Data5.doconst m ≡ fetches Data.doconst m
unfolding Data5.doconst Data.doconst
doconst_same m = ground arith

pub dovar_same : (m : Machine) → Data5.dovar m ≡ fetches Data.dovar m
unfolding Data5.dovar Data.dovar
dovar_same m = ground arith

pub doivar_same : (m : Machine) → Data5.doivar m ≡ fetches Data.doivar m
unfolding Data5.doivar Data.doivar
doivar_same m = ground arith

pub literal_same : (m : Machine) → Data5.literal m ≡ fetches Data.literal m
unfolding Data5.literal Data.literal
literal_same m = ground arith

pub here_same : (m : Machine) → Data5.here m ≡ fetches Data.here m
unfolding Data5.here Data.here
here_same m = ground arith

pub move_same : (m : Machine) → Data5.move m ≡ fetches Data.move m
unfolding Data5.move Data.move
move_same m = ground arith

pub free_ram_same : (m : Machine) → Data5.free_ram m ≡ fetches Data.free_ram m
unfolding Data5.free_ram Data.free_ram
free_ram_same m = ground arith

pub set_dict_same : (m : Machine) → Data5.set_dict m ≡ fetches Data.set_dict m
unfolding Data5.set_dict Data.set_dict
set_dict_same m = ground arith

pub peek_same : (m : Machine) → Memory5.peek m ≡ fetches Data.peek m
unfolding Memory5.peek Data.peek
peek_same m = ground arith

pub poke_same : (m : Machine) → Memory5.poke m ≡ fetches Data.poke m
unfolding Memory5.poke Data.poke
poke_same m = ground arith

pub peek_byte_same : (m : Machine) → Memory5.peek_byte m ≡ fetches Data.peek_byte m
unfolding Memory5.peek_byte Data.peek_byte
peek_byte_same m = ground arith

pub poke_byte_same : (m : Machine) → Memory5.poke_byte m ≡ fetches Data.poke_byte m
unfolding Memory5.poke_byte Data.poke_byte
poke_byte_same m = ground arith

pub jumprel_same : (m : Machine) → Control5.jumprel m ≡ fetches Control.jumprel m
unfolding Control5.jumprel Control.jumprel
jumprel_same m = ground arith

pub ifjump_same : (m : Machine) → Control5.ifjump m ≡ fetches Control.ifjump m
unfolding Control5.ifjump Control.ifjump
ifjump_same m = ground arith

pub unlessjump_same : (m : Machine) → Control5.unlessjump m ≡ fetches Control.unlessjump m
unfolding Control5.unlessjump Control.unlessjump
unlessjump_same m = ground arith

pub flush_same : (m : Machine) → Io5.flush m ≡ fetches Io.flush m
unfolding Io5.flush Io.flush
flush_same m = ground arith

pub write_int_same : (m : Machine) → Io5.write_int m ≡ fetches Io.write_int m
unfolding Io5.write_int Io.write_int
write_int_same m = ground arith

pub write_uint_same : (m : Machine) → Io5.write_uint m ≡ fetches Io.write_uint m
unfolding Io5.write_uint Io.write_uint
write_uint_same m = ground arith

pub write_hex_int_same : (m : Machine) → Io5.write_hex_int m ≡ fetches Io.write_hex_int m
unfolding Io5.write_hex_int Io.write_hex_int
write_hex_int_same m = ground arith
