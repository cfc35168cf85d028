-- ===== src/Depth/Arity.antt =====
-- How many cells each C function of misc/c/c5.c takes from the stack, and how many it leaves.
use north_arm.Prelude.{ℕ, Bool, true, false}
use north_arm.C5.Op.{Op}

-- The functions that move *sp by as many cells in every call; the others call _next or a function,
-- or do not come back.
abbrev pub is_fixed : Op → Bool
is_fixed Op.doconst = true
is_fixed Op.dovar = true
is_fixed Op.doivar = true
is_fixed Op.cputs = true
is_fixed Op.write_string = true
is_fixed Op.flush = true
is_fixed Op.literal = true
is_fixed Op.here = true
is_fixed Op.rhere = true
is_fixed Op.int_sub = true
is_fixed Op.uint_sub = true
is_fixed Op.ptr_add = true
is_fixed Op.ptr_sub = true
is_fixed Op.write_int = true
is_fixed Op.write_uint = true
is_fixed Op.swap = true
is_fixed Op.fdup = true
is_fixed Op.eip = true
is_fixed Op.write_hex_int = true
is_fixed Op.int_add = true
is_fixed Op.int_mul = true
is_fixed Op.int_div = true
is_fixed Op.int_mod = true
is_fixed Op.bsl = true
is_fixed Op.bsr = true
is_fixed Op.int_lte = true
is_fixed Op.int_lt = true
is_fixed Op.equals = true
is_fixed Op.peek = true
is_fixed Op.poke = true
is_fixed Op.peek_byte = true
is_fixed Op.poke_byte = true
is_fixed Op.ifjump = true
is_fixed Op.unlessjump = true
is_fixed Op.drop = true
is_fixed Op.over = true
is_fixed Op.jumprel = true
is_fixed Op.roll = true
is_fixed Op.shift = true
is_fixed Op.rot = true
is_fixed Op.free_ram = true
is_fixed Op.ram_used = true
is_fixed Op.set_dict = true
is_fixed Op.dict = true
is_fixed Op.cread = true
is_fixed Op.cwrite = true
is_fixed _ = false

abbrev pub takes : Op → ℕ
takes Op.doconst = 1
takes Op.dovar = 1
takes Op.doivar = 1
takes Op.cputs = 1
takes Op.write_string = 1
takes Op.flush = 1
takes Op.int_sub = 2
takes Op.uint_sub = 2
takes Op.ptr_add = 2
takes Op.ptr_sub = 2
takes Op.write_int = 1
takes Op.write_uint = 1
takes Op.swap = 2
takes Op.fdup = 1
takes Op.write_hex_int = 1
takes Op.int_add = 2
takes Op.int_mul = 2
takes Op.int_div = 2
takes Op.int_mod = 2
takes Op.bsl = 2
takes Op.bsr = 2
takes Op.int_lte = 2
takes Op.int_lt = 2
takes Op.equals = 2
takes Op.peek = 1
takes Op.poke = 2
takes Op.peek_byte = 1
takes Op.poke_byte = 2
takes Op.ifjump = 2
takes Op.unlessjump = 2
takes Op.drop = 1
takes Op.over = 2
takes Op.jumprel = 1
takes Op.roll = 3
takes Op.shift = 3
takes Op.rot = 3
takes Op.set_dict = 1
takes Op.cread = 3
takes Op.cwrite = 3
takes _ = 0

abbrev pub leaves : Op → ℕ
leaves Op.doconst = 1
leaves Op.dovar = 1
leaves Op.doivar = 1
leaves Op.literal = 1
leaves Op.here = 1
leaves Op.rhere = 1
leaves Op.int_sub = 1
leaves Op.uint_sub = 1
leaves Op.ptr_add = 1
leaves Op.ptr_sub = 1
leaves Op.swap = 2
leaves Op.fdup = 2
leaves Op.eip = 1
leaves Op.int_add = 1
leaves Op.int_mul = 1
leaves Op.int_div = 1
leaves Op.int_mod = 1
leaves Op.bsl = 1
leaves Op.bsr = 1
leaves Op.int_lte = 1
leaves Op.int_lt = 1
leaves Op.equals = 1
leaves Op.peek = 1
leaves Op.peek_byte = 1
leaves Op.over = 3
leaves Op.roll = 3
leaves Op.shift = 3
leaves Op.rot = 3
leaves Op.free_ram = 1
leaves Op.ram_used = 1
leaves Op.dict = 1
leaves Op.cread = 1
leaves Op.cwrite = 1
leaves _ = 0
