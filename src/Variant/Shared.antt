-- ===== src/Variant/Shared.antt =====
-- The interpreters of misc/c/c4.c and misc/c/c5.c give the same meaning to the words that they share.
use north_arm.Prelude.{ℕ, ◌≡◌, Bool, true, false}
use north_arm.Machine.{Machine, M}
use north_arm.C5.Op.{Op, Host}
use north_arm.C5.Run.{perform}
use north_arm.Variant.Run as Variant
use north_arm.Variant.Signal.{Signal}
use north_arm.Variant.Same
use north_arm.Variant.Same.{fetches}

-- The words without a call, and without a difference between the programs.
abbrev pub is_shared : Op → Bool
is_shared Op.swap = true
is_shared Op.fdup = true
is_shared Op.drop = true
is_shared Op.roll = true
is_shared Op.shift = true
is_shared Op.rot = true
is_shared Op.int_sub = true
is_shared Op.uint_sub = true
is_shared Op.ptr_add = true
is_shared Op.ptr_sub = true
is_shared Op.int_add = true
is_shared Op.int_mul = true
is_shared Op.int_div = true
is_shared Op.int_mod = true
is_shared Op.int_lte = true
is_shared Op.int_lt = true
is_shared Op.equals = true
is_shared Op.doconst = true
is_shared Op.dovar = true
is_shared Op.doivar = true
is_shared Op.literal = true
is_shared Op.here = true
is_shared Op.move = true
is_shared Op.free_ram = true
is_shared Op.set_dict = true
is_shared Op.peek = true
is_shared Op.poke = true
is_shared Op.peek_byte = true
is_shared Op.poke_byte = true
is_shared Op.jumprel = true
is_shared Op.ifjump = true
is_shared Op.unlessjump = true
is_shared Op.flush = true
is_shared Op.write_int = true
is_shared Op.write_uint = true
is_shared Op.write_hex_int = true
is_shared _ = false

module _ (host : Host) (trace_at eip_at fuel : ℕ) where
  -- For each word in is_shared the C function of c5.c does, on every machine and faults
  -- included, what that of c4.c does followed by the fetch of the next word.
  pub perform_same :
      (call : ℕ → M ℕ) (next : M ℕ) (call4 : ℕ → M Signal) (next4 : M Signal) (op : Op)
      (m : Machine)
      → is_shared op ≡ true
      → perform host fuel call next op m
        ≡ fetches (Variant.perform host trace_at eip_at fuel call4 next4 op) m
  unfolding perform Variant.perform
  perform_same call next call4 next4 Op.swap m h = Same.swap_same m
  perform_same call next call4 next4 Op.fdup m h = Same.fdup_same m
  perform_same call next call4 next4 Op.drop m h = Same.drop_same m
  perform_same call next call4 next4 Op.roll m h = Same.roll_same m
  perform_same call next call4 next4 Op.shift m h = Same.shift_same m
  perform_same call next call4 next4 Op.rot m h = Same.rot_same m
  perform_same call next call4 next4 Op.int_sub m h = Same.int_sub_same m
  perform_same call next call4 next4 Op.uint_sub m h = Same.uint_sub_same m
  perform_same call next call4 next4 Op.ptr_add m h = Same.ptr_add_same m
  perform_same call next call4 next4 Op.ptr_sub m h = Same.ptr_sub_same m
  perform_same call next call4 next4 Op.int_add m h = Same.int_add_same m
  perform_same call next call4 next4 Op.int_mul m h = Same.int_mul_same m
  perform_same call next call4 next4 Op.int_div m h = Same.int_div_same m
  perform_same call next call4 next4 Op.int_mod m h = Same.int_mod_same m
  perform_same call next call4 next4 Op.int_lte m h = Same.int_lte_same m
  perform_same call next call4 next4 Op.int_lt m h = Same.int_lt_same m
  perform_same call next call4 next4 Op.equals m h = Same.equals_same m
  perform_same call next call4 next4 Op.doconst m h = Same.doconst_same m
  perform_same call next call4 next4 Op.dovar m h = Same.dovar_same m
  perform_same call next call4 next4 Op.doivar m h = Same.doivar_same m
  perform_same call next call4 next4 Op.literal m h = Same.literal_same m
  perform_same call next call4 next4 Op.here m h = Same.here_same m
  perform_same call next call4 next4 Op.move m h = Same.move_same m
  perform_same call next call4 next4 Op.free_ram m h = Same.free_ram_same m
  perform_same call next call4 next4 Op.set_dict m h = Same.set_dict_same m
  perform_same call next call4 next4 Op.peek m h = Same.peek_same m
  perform_same call next call4 next4 Op.poke m h = Same.poke_same m
  perform_same call next call4 next4 Op.peek_byte m h = Same.peek_byte_same m
  perform_same call next call4 next4 Op.poke_byte m h = Same.poke_byte_same m
  perform_same call next call4 next4 Op.jumprel m h = Same.jumprel_same m
  perform_same call next call4 next4 Op.ifjump m h = Same.ifjump_same m
  perform_same call next call4 next4 Op.unlessjump m h = Same.unlessjump_same m
  perform_same call next call4 next4 Op.flush m h = Same.flush_same m
  perform_same call next call4 next4 Op.write_int m h = Same.write_int_same m
  perform_same call next call4 next4 Op.write_uint m h = Same.write_uint_same m
  perform_same call next call4 next4 Op.write_hex_int m h = Same.write_hex_int_same m
  perform_same call next call4 next4 _ m h = cc
