-- ===== src/Interp/Entries.antt =====
-- The dictionary that the DEF macros of misc/c/c5.c, c4-words-def.c and c4-interp.c link, with
-- NOLOG and neither AVR nor NEEDED_ONLY, and the search for a name in it.
pub mod Names
pub mod Found
mod Tests
use north_arm.Prelude.{
  ℕ, zero, suc, Bool, true, false, Option, none, some, List, [], ◌∷◌, ◌==◌, ◌&&◌, if◌then◌else◌,
}
use north_arm.C5.Op.{Op}
use north_arm.Interp.Item.{Colon, Const, Var}

-- A word. Those of c5.c are `function`, the ones that DEFCONST defines there too.
pub data Entry : Type 0 where
  function : Op → Entry
  list : Colon → Entry
  constant : Const → Entry
  variable : Var → Entry

-- Const has doconst and doop once more.
abbrev pub is_entry : Entry → Bool
is_entry (constant Const.doconst) = false
is_entry (constant Const.doop) = false
is_entry _ = true

-- `last_word`
abbrev pub newest : Entry
newest = list Colon.boot

unfoldable pub function_next : Op → Option Entry
function_next Op.doconst = none
function_next Op.doop = some (function Op.doconst)
function_next Op.exec = some (function Op.doop)
function_next Op.next = some (function Op.exec)
function_next Op.cputs = some (function Op.next)
function_next Op.write_string = some (function Op.cputs)
function_next Op.flush = some (function Op.write_string)
function_next Op.cexit = some (function Op.flush)
function_next Op.literal = some (function Op.cexit)
function_next Op.return0 = some (function Op.literal)
function_next Op.rallot = some (function Op.return0)
function_next Op.here = some (function Op.rallot)
function_next Op.rhere = some (function Op.here)
function_next Op.int_sub = some (function Op.rhere)
function_next Op.uint_sub = some (function Op.int_sub)
function_next Op.ptr_add = some (function Op.uint_sub)
function_next Op.ptr_sub = some (function Op.ptr_add)
function_next Op.write_int = some (function Op.ptr_sub)
function_next Op.write_uint = some (function Op.write_int)
function_next Op.swap = some (function Op.write_uint)
function_next Op.fdup = some (function Op.swap)
function_next Op.enter = some (function Op.fdup)
function_next Op.docol = some (function Op.enter)
function_next Op.eip = some (function Op.docol)
function_next Op.abort_next = some (function Op.eip)
function_next Op.write_hex_int = some (function Op.abort_next)
function_next Op.int_add = some (function Op.write_hex_int)
function_next Op.int_mul = some (function Op.int_add)
function_next Op.int_div = some (function Op.int_mul)
function_next Op.int_mod = some (function Op.int_div)
function_next Op.bsl = some (function Op.int_mod)
function_next Op.bsr = some (function Op.bsl)
function_next Op.int_lte = some (function Op.bsr)
function_next Op.int_lt = some (function Op.int_lte)
function_next Op.equals = some (function Op.int_lt)
function_next Op.peek = some (function Op.equals)
function_next Op.poke = some (function Op.peek)
function_next Op.peek_byte = some (function Op.poke)
function_next Op.poke_byte = some (function Op.peek_byte)
function_next Op.ifjump = some (function Op.poke_byte)
function_next Op.unlessjump = some (function Op.ifjump)
function_next Op.drop = some (function Op.unlessjump)
function_next Op.fexit = some (function Op.drop)
function_next Op.over = some (function Op.fexit)
function_next Op.rpush = some (function Op.over)
function_next Op.rpop = some (function Op.rpush)
function_next Op.cread = some (function Op.rpop)
function_next Op.cwrite = some (function Op.cread)
function_next Op.jumprel = some (function Op.cwrite)
function_next Op.roll = some (function Op.jumprel)
function_next Op.shift = some (function Op.roll)
function_next Op.rot = some (function Op.shift)
function_next Op.dovar = some (function Op.rot)
function_next Op.doivar = some (function Op.dovar)
function_next Op.free_ram = some (function Op.doivar)
function_next Op.ram_used = some (function Op.free_ram)
function_next Op.move = some (function Op.ram_used)
function_next Op.set_dict = some (function Op.move)
function_next Op.dict = some (function Op.set_dict)

unfoldable pub list_next : Colon → Option Entry
list_next Colon.words1 = some (function Op.dict)
list_next Colon.words = some (list Colon.words1)
list_next Colon.pick = some (constant Const.cell_size)
list_next Colon.nl = some (variable Var.stack_prompt)
list_next Colon.dot = some (list Colon.nl)
list_next Colon.memdump = some (list Colon.dot)
list_next Colon.dump_stack = some (list Colon.memdump)
list_next Colon.prompt = some (list Colon.dump_stack)
list_next Colon.read_byte = some (list Colon.prompt)
list_next Colon.is_space = some (list Colon.read_byte)
list_next Colon.is_newline = some (list Colon.is_space)
list_next Colon.read_line3 = some (list Colon.is_newline)
list_next Colon.null_terminate = some (list Colon.read_line3)
list_next Colon.refill_input_buffer = some (list Colon.null_terminate)
list_next Colon.input_buffer_read_byte = some (list Colon.refill_input_buffer)
list_next Colon.eat_spaces = some (list Colon.input_buffer_read_byte)
list_next Colon.read_token3 = some (list Colon.eat_spaces)
list_next Colon.read_token = some (list Colon.read_token3)
list_next Colon.dict_entry_name = some (list Colon.read_token)
list_next Colon.dict_entry_code = some (list Colon.dict_entry_name)
list_next Colon.dict_entry_data = some (list Colon.dict_entry_code)
list_next Colon.dict_entry_next = some (list Colon.dict_entry_data)
list_next Colon.byte_string_equals4 = some (list Colon.dict_entry_next)
list_next Colon.byte_string_equals3 = some (list Colon.byte_string_equals4)
list_next Colon.lookup = some (list Colon.byte_string_equals3)
list_next Colon.quote = some (list Colon.lookup)
list_next Colon.swap_places = some (list Colon.quote)
list_next Colon.reverse3 = some (list Colon.swap_places)
list_next Colon.reverse = some (list Colon.reverse3)
list_next Colon.nseq = some (list Colon.reverse)
list_next Colon.interp_loop = some (variable Var.istate)
list_next Colon.rbracket = some (list Colon.interp_loop)
list_next Colon.compile = some (list Colon.rbracket)
list_next Colon.lbracket = some (list Colon.compile)
list_next Colon.stack_allot = some (list Colon.lbracket)
list_next Colon.interp = some (list Colon.stack_allot)
list_next Colon.load = some (list Colon.interp)
list_next Colon.mem_used = some (list Colon.load)
list_next Colon.mem_info = some (list Colon.mem_used)
list_next Colon.boot = some (variable Var.xvar)

unfoldable pub constant_next : Const → Option Entry
constant_next Const.cell_size = some (list Colon.words)
constant_next Const.standard_input = some (list Colon.pick)
constant_next Const.standard_output = some (constant Const.standard_input)
constant_next Const.standard_error = some (constant Const.standard_output)
constant_next Const.zero = some (list Colon.mem_info)
constant_next Const.one = some (constant Const.zero)
constant_next Const.mone = some (constant Const.one)
constant_next Const.two = some (constant Const.mone)
constant_next Const.three = some (constant Const.two)
constant_next Const.four = some (constant Const.three)
constant_next Const.sixteen = some (constant Const.four)
constant_next _ = none

unfoldable pub variable_next : Var → Option Entry
variable_next Var.current_input = some (constant Const.standard_error)
variable_next Var.current_output = some (variable Var.current_input)
variable_next Var.current_error = some (variable Var.current_output)
variable_next Var.input_buffer = some (variable Var.current_error)
variable_next Var.input_buffer_max_size = some (variable Var.input_buffer)
variable_next Var.input_buffer_size = some (variable Var.input_buffer_max_size)
variable_next Var.input_buffer_offset = some (variable Var.input_buffer_size)
variable_next Var.stack_top = some (variable Var.input_buffer_offset)
variable_next Var.stack_prompt = some (variable Var.stack_top)
variable_next Var.token_buffer = some (list Colon.nseq)
variable_next Var.token_buffer_size = some (variable Var.token_buffer)
variable_next Var.istate = some (variable Var.token_buffer_size)
variable_next Var.xvar = some (constant Const.sixteen)

-- The `next` cell of a word.
unfoldable pub next : Entry → Option Entry
unfolding function_next list_next constant_next variable_next
next (function o) = function_next o
next (list c) = list_next c
next (constant c) = constant_next c
next (variable v) = variable_next v
