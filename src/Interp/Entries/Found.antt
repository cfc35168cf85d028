-- ===== src/Interp/Entries/Found.antt =====
-- Every word of the dictionary is found by its name.
use north_arm.Prelude.{◌≡◌, refl, true, some}
use north_arm.C5.Op.{Op}
use north_arm.Interp.Item.{Colon, Const, Var}
use north_arm.Interp.Entries.{Entry, function, list, constant, variable, is_entry, newest}
use north_arm.Interp.Entries.Names.{name, find}

-- From the newest word, boot, down the links of the dictionary that c5.c, c4-words-def.c and
-- c4-interp.c make, the search for the name of any of their 123 words comes to that word, so no
-- word is unlinked or shadowed by a later one.
pub find-name : (e : Entry) → is_entry e ≡ true → find 123 newest (name e) ≡ some e
unfolding find name
find-name (function Op.doconst) h = refl
find-name (function Op.doop) h = refl
find-name (function Op.exec) h = refl
find-name (function Op.next) h = refl
find-name (function Op.cputs) h = refl
find-name (function Op.write_string) h = refl
find-name (function Op.flush) h = refl
find-name (function Op.cexit) h = refl
find-name (function Op.literal) h = refl
find-name (function Op.return0) h = refl
find-name (function Op.rallot) h = refl
find-name (function Op.here) h = refl
find-name (function Op.rhere) h = refl
find-name (function Op.int_sub) h = refl
find-name (function Op.uint_sub) h = refl
find-name (function Op.ptr_add) h = refl
find-name (function Op.ptr_sub) h = refl
find-name (function Op.write_int) h = refl
find-name (function Op.write_uint) h = refl
find-name (function Op.swap) h = refl
find-name (function Op.fdup) h = refl
find-name (function Op.enter) h = refl
find-name (function Op.docol) h = refl
find-name (function Op.eip) h = refl
find-name (function Op.abort_next) h = refl
find-name (function Op.write_hex_int) h = refl
find-name (function Op.int_add) h = refl
find-name (function Op.int_mul) h = refl
find-name (function Op.int_div) h = refl
find-name (function Op.int_mod) h = refl
find-name (function Op.bsl) h = refl
find-name (function Op.bsr) h = refl
find-name (function Op.int_lte) h = refl
find-name (function Op.int_lt) h = refl
find-name (function Op.equals) h = refl
find-name (function Op.peek) h = refl
find-name (function Op.poke) h = refl
find-name (function Op.peek_byte) h = refl
find-name (function Op.poke_byte) h = refl
find-name (function Op.ifjump) h = refl
find-name (function Op.unlessjump) h = refl
find-name (function Op.drop) h = refl
find-name (function Op.fexit) h = refl
find-name (function Op.over) h = refl
find-name (function Op.rpush) h = refl
find-name (function Op.rpop) h = refl
find-name (function Op.cread) h = refl
find-name (function Op.cwrite) h = refl
find-name (function Op.jumprel) h = refl
find-name (function Op.roll) h = refl
find-name (function Op.shift) h = refl
find-name (function Op.rot) h = refl
find-name (function Op.dovar) h = refl
find-name (function Op.doivar) h = refl
find-name (function Op.free_ram) h = refl
find-name (function Op.ram_used) h = refl
find-name (function Op.move) h = refl
find-name (function Op.set_dict) h = refl
find-name (function Op.dict) h = refl
find-name (list Colon.words1) h = refl
find-name (list Colon.words) h = refl
find-name (list Colon.pick) h = refl
find-name (list Colon.nl) h = refl
find-name (list Colon.dot) h = refl
find-name (list Colon.memdump) h = refl
find-name (list Colon.dump_stack) h = refl
find-name (list Colon.prompt) h = refl
find-name (list Colon.read_byte) h = refl
find-name (list Colon.is_space) h = refl
find-name (list Colon.is_newline) h = refl
find-name (list Colon.read_line3) h = refl
find-name (list Colon.null_terminate) h = refl
find-name (list Colon.refill_input_buffer) h = refl
find-name (list Colon.input_buffer_read_byte) h = refl
find-name (list Colon.eat_spaces) h = refl
find-name (list Colon.read_token3) h = refl
find-name (list Colon.read_token) h = refl
find-name (list Colon.dict_entry_name) h = refl
find-name (list Colon.dict_entry_code) h = refl
find-name (list Colon.dict_entry_data) h = refl
find-name (list Colon.dict_entry_next) h = refl
find-name (list Colon.byte_string_equals4) h = refl
find-name (list Colon.byte_string_equals3) h = refl
find-name (list Colon.lookup) h = refl
find-name (list Colon.quote) h = refl
find-name (list Colon.swap_places) h = refl
find-name (list Colon.reverse3) h = refl
find-name (list Colon.reverse) h = refl
find-name (list Colon.nseq) h = refl
find-name (list Colon.interp_loop) h = refl
find-name (list Colon.rbracket) h = refl
find-name (list Colon.compile) h = refl
find-name (list Colon.lbracket) h = refl
find-name (list Colon.stack_allot) h = refl
find-name (list Colon.interp) h = refl
find-name (list Colon.load) h = refl
find-name (list Colon.mem_used) h = refl
find-name (list Colon.mem_info) h = refl
find-name (list Colon.boot) h = refl
find-name (constant Const.cell_size) h = refl
find-name (constant Const.standard_input) h = refl
find-name (constant Const.standard_output) h = refl
find-name (constant Const.standard_error) h = refl
find-name (constant Const.zero) h = refl
find-name (constant Const.one) h = refl
find-name (constant Const.mone) h = refl
find-name (constant Const.two) h = refl
find-name (constant Const.three) h = refl
find-name (constant Const.four) h = refl
find-name (constant Const.sixteen) h = refl
find-name (variable Var.current_input) h = refl
find-name (variable Var.current_output) h = refl
find-name (variable Var.current_error) h = refl
find-name (variable Var.input_buffer) h = refl
find-name (variable Var.input_buffer_max_size) h = refl
find-name (variable Var.input_buffer_size) h = refl
find-name (variable Var.input_buffer_offset) h = refl
find-name (variable Var.stack_top) h = refl
find-name (variable Var.stack_prompt) h = refl
find-name (variable Var.token_buffer) h = refl
find-name (variable Var.token_buffer_size) h = refl
find-name (variable Var.istate) h = refl
find-name (variable Var.xvar) h = refl
find-name (constant Const.doconst) h = cc
find-name (constant Const.doop) h = cc
