-- ===== src/Interp/Entries/Names.antt =====
-- The names that the DEF macros give to the words, without the final zero, and the search for one.
use north_arm.Prelude.{
  ℕ, zero, suc, Bool, true, false, Option, none, some, List, [], ◌∷◌, ◌==◌, ◌&&◌, if◌then◌else◌,
}
use north_arm.C5.Op.{Op}
use north_arm.Interp.Item.{Colon, Const, Var}
use north_arm.Interp.Entries.{Entry, function, list, constant, variable, next}

unfoldable pub function_name : Op → List ℕ
function_name Op.doconst = b'd' ∷ b'o' ∷ b'c' ∷ b'o' ∷ b'n' ∷ b's' ∷ b't' ∷ []
function_name Op.doop = b'd' ∷ b'o' ∷ b'o' ∷ b'p' ∷ []
function_name Op.exec = b'e' ∷ b'x' ∷ b'e' ∷ b'c' ∷ []
function_name Op.next = b'n' ∷ b'e' ∷ b'x' ∷ b't' ∷ []
function_name Op.cputs = b'c' ∷ b'p' ∷ b'u' ∷ b't' ∷ b's' ∷ []
function_name Op.write_string =
    b'w' ∷ b'r' ∷ b'i' ∷ b't' ∷ b'e' ∷ b'-' ∷ b's' ∷ b't' ∷ b'r' ∷ b'i' ∷ b'n' ∷ b'g' ∷ []
function_name Op.flush = b'f' ∷ b'l' ∷ b'u' ∷ b's' ∷ b'h' ∷ []
function_name Op.cexit = b'c' ∷ b'e' ∷ b'x' ∷ b'i' ∷ b't' ∷ []
function_name Op.literal = b'l' ∷ b'i' ∷ b't' ∷ b'e' ∷ b'r' ∷ b'a' ∷ b'l' ∷ []
function_name Op.return0 = b'r' ∷ b'e' ∷ b't' ∷ b'u' ∷ b'r' ∷ b'n' ∷ b'0' ∷ []
function_name Op.rallot = b'r' ∷ b'a' ∷ b'l' ∷ b'l' ∷ b'o' ∷ b't' ∷ []
function_name Op.here = b'h' ∷ b'e' ∷ b'r' ∷ b'e' ∷ []
function_name Op.rhere = b'r' ∷ b'h' ∷ b'e' ∷ b'r' ∷ b'e' ∷ []
function_name Op.int_sub = b'i' ∷ b'n' ∷ b't' ∷ b'-' ∷ b's' ∷ b'u' ∷ b'b' ∷ []
function_name Op.uint_sub = b'u' ∷ b'i' ∷ b'n' ∷ b't' ∷ b'-' ∷ b's' ∷ b'u' ∷ b'b' ∷ []
function_name Op.ptr_add = b'p' ∷ b't' ∷ b'r' ∷ b'-' ∷ b'a' ∷ b'd' ∷ b'd' ∷ []
function_name Op.ptr_sub = b'p' ∷ b't' ∷ b'r' ∷ b'-' ∷ b's' ∷ b'u' ∷ b'b' ∷ []
function_name Op.write_int = b'w' ∷ b'r' ∷ b'i' ∷ b't' ∷ b'e' ∷ b'-' ∷ b'i' ∷ b'n' ∷ b't' ∷ []
function_name Op.write_uint =
    b'w' ∷ b'r' ∷ b'i' ∷ b't' ∷ b'e' ∷ b'-' ∷ b'u' ∷ b'i' ∷ b'n' ∷ b't' ∷ []
function_name Op.swap = b's' ∷ b'w' ∷ b'a' ∷ b'p' ∷ []
function_name Op.fdup = b'd' ∷ b'u' ∷ b'p' ∷ []
function_name Op.enter = b'e' ∷ b'n' ∷ b't' ∷ b'e' ∷ b'r' ∷ []
function_name Op.docol = b'd' ∷ b'o' ∷ b'c' ∷ b'o' ∷ b'l' ∷ []
function_name Op.eip = b'e' ∷ b'i' ∷ b'p' ∷ []
function_name Op.abort_next =
    b'a' ∷ b'b' ∷ b'o' ∷ b'r' ∷ b't' ∷ b'-' ∷ b'n' ∷ b'e' ∷ b'x' ∷ b't' ∷ []
function_name Op.write_hex_int =
    b'w' ∷ b'r' ∷ b'i' ∷ b't' ∷ b'e' ∷ b'-' ∷ b'h' ∷ b'e' ∷ b'x' ∷ b'-' ∷ b'i' ∷ b'n' ∷ b't' ∷ []
function_name Op.int_add = b'i' ∷ b'n' ∷ b't' ∷ b'-' ∷ b'a' ∷ b'd' ∷ b'd' ∷ []
function_name Op.int_mul = b'i' ∷ b'n' ∷ b't' ∷ b'-' ∷ b'm' ∷ b'u' ∷ b'l' ∷ []
function_name Op.int_div = b'i' ∷ b'n' ∷ b't' ∷ b'-' ∷ b'd' ∷ b'i' ∷ b'v' ∷ []
function_name Op.int_mod = b'i' ∷ b'n' ∷ b't' ∷ b'-' ∷ b'm' ∷ b'o' ∷ b'd' ∷ []
function_name Op.bsl = b'b' ∷ b's' ∷ b'l' ∷ []
function_name Op.bsr = b'b' ∷ b's' ∷ b'r' ∷ []
function_name Op.int_lte = b'i' ∷ b'n' ∷ b't' ∷ b'<' ∷ b'=' ∷ []
function_name Op.int_lt = b'i' ∷ b'n' ∷ b't' ∷ b'<' ∷ []
function_name Op.equals = b'e' ∷ b'q' ∷ b'u' ∷ b'a' ∷ b'l' ∷ b's' ∷ b'?' ∷ []
function_name Op.peek = b'p' ∷ b'e' ∷ b'e' ∷ b'k' ∷ []
function_name Op.poke = b'p' ∷ b'o' ∷ b'k' ∷ b'e' ∷ []
function_name Op.peek_byte = b'p' ∷ b'e' ∷ b'e' ∷ b'k' ∷ b'-' ∷ b'b' ∷ b'y' ∷ b't' ∷ b'e' ∷ []
function_name Op.poke_byte = b'p' ∷ b'o' ∷ b'k' ∷ b'e' ∷ b'-' ∷ b'b' ∷ b'y' ∷ b't' ∷ b'e' ∷ []
function_name Op.ifjump = b'i' ∷ b'f' ∷ b'j' ∷ b'u' ∷ b'm' ∷ b'p' ∷ []
function_name Op.unlessjump =
    b'u' ∷ b'n' ∷ b'l' ∷ b'e' ∷ b's' ∷ b's' ∷ b'j' ∷ b'u' ∷ b'm' ∷ b'p' ∷ []
function_name Op.drop = b'd' ∷ b'r' ∷ b'o' ∷ b'p' ∷ []
function_name Op.fexit = b'f' ∷ b'e' ∷ b'x' ∷ b'i' ∷ b't' ∷ []
function_name Op.over = b'o' ∷ b'v' ∷ b'e' ∷ b'r' ∷ []
function_name Op.rpush = b'r' ∷ b'p' ∷ b'u' ∷ b's' ∷ b'h' ∷ []
function_name Op.rpop = b'r' ∷ b'p' ∷ b'o' ∷ b'p' ∷ []
function_name Op.cread = b'c' ∷ b'r' ∷ b'e' ∷ b'a' ∷ b'd' ∷ []
function_name Op.cwrite = b'c' ∷ b'w' ∷ b'r' ∷ b'i' ∷ b't' ∷ b'e' ∷ []
function_name Op.jumprel = b'j' ∷ b'u' ∷ b'm' ∷ b'p' ∷ b'r' ∷ b'e' ∷ b'l' ∷ []
function_name Op.roll = b'r' ∷ b'o' ∷ b'l' ∷ b'l' ∷ []
function_name Op.shift = b's' ∷ b'h' ∷ b'i' ∷ b'f' ∷ b't' ∷ []
function_name Op.rot = b'r' ∷ b'o' ∷ b't' ∷ []
function_name Op.dovar = b'd' ∷ b'o' ∷ b'v' ∷ b'a' ∷ b'r' ∷ []
function_name Op.doivar = b'd' ∷ b'o' ∷ b'i' ∷ b'v' ∷ b'a' ∷ b'r' ∷ []
function_name Op.free_ram = b'f' ∷ b'r' ∷ b'e' ∷ b'e' ∷ b'-' ∷ b'r' ∷ b'a' ∷ b'm' ∷ []
function_name Op.ram_used = b'r' ∷ b'a' ∷ b'm' ∷ b'-' ∷ b'u' ∷ b's' ∷ b'e' ∷ b'd' ∷ []
function_name Op.move = b'm' ∷ b'o' ∷ b'v' ∷ b'e' ∷ []
function_name Op.set_dict = b's' ∷ b'e' ∷ b't' ∷ b'-' ∷ b'd' ∷ b'i' ∷ b'c' ∷ b't' ∷ []
function_name Op.dict = b'd' ∷ b'i' ∷ b'c' ∷ b't' ∷ []

unfoldable pub list_name : Colon → List ℕ
list_name Colon.words1 = b'w' ∷ b'o' ∷ b'r' ∷ b'd' ∷ b's' ∷ b'1' ∷ []
list_name Colon.words = b'w' ∷ b'o' ∷ b'r' ∷ b'd' ∷ b's' ∷ []
list_name Colon.pick = b'p' ∷ b'i' ∷ b'c' ∷ b'k' ∷ []
list_name Colon.nl = b'n' ∷ b'l' ∷ []
list_name Colon.dot = b'.' ∷ []
list_name Colon.memdump = b'm' ∷ b'e' ∷ b'm' ∷ b'd' ∷ b'u' ∷ b'm' ∷ b'p' ∷ []
list_name Colon.dump_stack =
    b'd' ∷ b'u' ∷ b'm' ∷ b'p' ∷ b'-' ∷ b's' ∷ b't' ∷ b'a' ∷ b'c' ∷ b'k' ∷ []
list_name Colon.prompt = b'p' ∷ b'r' ∷ b'o' ∷ b'm' ∷ b'p' ∷ b't' ∷ []
list_name Colon.read_byte = b'r' ∷ b'e' ∷ b'a' ∷ b'd' ∷ b'-' ∷ b'b' ∷ b'y' ∷ b't' ∷ b'e' ∷ []
list_name Colon.is_space = b'i' ∷ b's' ∷ b'-' ∷ b's' ∷ b'p' ∷ b'a' ∷ b'c' ∷ b'e' ∷ b'?' ∷ []
list_name Colon.is_newline =
    b'i' ∷ b's' ∷ b'-' ∷ b'n' ∷ b'e' ∷ b'w' ∷ b'l' ∷ b'i' ∷ b'n' ∷ b'e' ∷ b'?' ∷ []
list_name Colon.read_line3 =
    b'r' ∷ b'e' ∷ b'a' ∷ b'd' ∷ b'-' ∷ b'l' ∷ b'i' ∷ b'n' ∷ b'e' ∷ b'/' ∷ b'3' ∷ []
list_name Colon.null_terminate =
    b'n' ∷ b'u' ∷ b'l' ∷ b'l' ∷ b'-' ∷ b't' ∷ b'e' ∷ b'r' ∷ b'm' ∷ b'i' ∷ b'n' ∷ b'a' ∷ b't' ∷ b'e'
    ∷ []
list_name Colon.refill_input_buffer =
    b'r' ∷ b'e' ∷ b'f' ∷ b'i' ∷ b'l' ∷ b'l' ∷ b'-' ∷ b'i' ∷ b'n' ∷ b'p' ∷ b'u' ∷ b't' ∷ b'-' ∷ b'b'
    ∷ b'u' ∷ b'f' ∷ b'f' ∷ b'e' ∷ b'r' ∷ []
list_name Colon.input_buffer_read_byte =
    b'i' ∷ b'n' ∷ b'p' ∷ b'u' ∷ b't' ∷ b'-' ∷ b'b' ∷ b'u' ∷ b'f' ∷ b'f' ∷ b'e' ∷ b'r' ∷ b'-' ∷ b'r'
    ∷ b'e' ∷ b'a' ∷ b'd' ∷ b'-' ∷ b'b' ∷ b'y' ∷ b't' ∷ b'e' ∷ []
list_name Colon.eat_spaces =
    b'e' ∷ b'a' ∷ b't' ∷ b'-' ∷ b's' ∷ b'p' ∷ b'a' ∷ b'c' ∷ b'e' ∷ b's' ∷ []
list_name Colon.read_token3 =
    b'r' ∷ b'e' ∷ b'a' ∷ b'd' ∷ b'-' ∷ b't' ∷ b'o' ∷ b'k' ∷ b'e' ∷ b'n' ∷ b'/' ∷ b'3' ∷ []
list_name Colon.read_token =
    b'r' ∷ b'e' ∷ b'a' ∷ b'd' ∷ b'-' ∷ b't' ∷ b'o' ∷ b'k' ∷ b'e' ∷ b'n' ∷ []
list_name Colon.dict_entry_name =
    b'd' ∷ b'i' ∷ b'c' ∷ b't' ∷ b'-' ∷ b'e' ∷ b'n' ∷ b't' ∷ b'r' ∷ b'y' ∷ b'-' ∷ b'n' ∷ b'a' ∷ b'm'
    ∷ b'e' ∷ []
list_name Colon.dict_entry_code =
    b'd' ∷ b'i' ∷ b'c' ∷ b't' ∷ b'-' ∷ b'e' ∷ b'n' ∷ b't' ∷ b'r' ∷ b'y' ∷ b'-' ∷ b'c' ∷ b'o' ∷ b'd'
    ∷ b'e' ∷ []
list_name Colon.dict_entry_data =
    b'd' ∷ b'i' ∷ b'c' ∷ b't' ∷ b'-' ∷ b'e' ∷ b'n' ∷ b't' ∷ b'r' ∷ b'y' ∷ b'-' ∷ b'd' ∷ b'a' ∷ b't'
    ∷ b'a' ∷ []
list_name Colon.dict_entry_next =
    b'd' ∷ b'i' ∷ b'c' ∷ b't' ∷ b'-' ∷ b'e' ∷ b'n' ∷ b't' ∷ b'r' ∷ b'y' ∷ b'-' ∷ b'n' ∷ b'e' ∷ b'x'
    ∷ b't' ∷ []
list_name Colon.byte_string_equals4 =
    b'b' ∷ b'y' ∷ b't' ∷ b'e' ∷ b'-' ∷ b's' ∷ b't' ∷ b'r' ∷ b'i' ∷ b'n' ∷ b'g' ∷ b'-' ∷ b'e' ∷ b'q'
    ∷ b'u' ∷ b'a' ∷ b'l' ∷ b's' ∷ b'?' ∷ b'/' ∷ b'4' ∷ []
list_name Colon.byte_string_equals3 =
    b'b' ∷ b'y' ∷ b't' ∷ b'e' ∷ b'-' ∷ b's' ∷ b't' ∷ b'r' ∷ b'i' ∷ b'n' ∷ b'g' ∷ b'-' ∷ b'e' ∷ b'q'
    ∷ b'u' ∷ b'a' ∷ b'l' ∷ b's' ∷ b'?' ∷ b'/' ∷ b'3' ∷ []
list_name Colon.lookup = b'l' ∷ b'o' ∷ b'o' ∷ b'k' ∷ b'u' ∷ b'p' ∷ []
list_name Colon.quote = b'\'' ∷ []
list_name Colon.swap_places =
    b's' ∷ b'w' ∷ b'a' ∷ b'p' ∷ b'-' ∷ b'p' ∷ b'l' ∷ b'a' ∷ b'c' ∷ b'e' ∷ b's' ∷ []
list_name Colon.reverse3 = b'r' ∷ b'e' ∷ b'v' ∷ b'e' ∷ b'r' ∷ b's' ∷ b'e' ∷ b'3' ∷ []
list_name Colon.reverse = b'r' ∷ b'e' ∷ b'v' ∷ b'e' ∷ b'r' ∷ b's' ∷ b'e' ∷ []
list_name Colon.nseq = b'n' ∷ b's' ∷ b'e' ∷ b'q' ∷ []
list_name Colon.interp_loop =
    b'i' ∷ b'n' ∷ b't' ∷ b'e' ∷ b'r' ∷ b'p' ∷ b'-' ∷ b'l' ∷ b'o' ∷ b'o' ∷ b'p' ∷ []
list_name Colon.rbracket = b']' ∷ []
list_name Colon.compile = b'c' ∷ b'o' ∷ b'm' ∷ b'p' ∷ b'i' ∷ b'l' ∷ b'e' ∷ []
list_name Colon.lbracket = b'[' ∷ []
list_name Colon.stack_allot =
    b's' ∷ b't' ∷ b'a' ∷ b'c' ∷ b'k' ∷ b'-' ∷ b'a' ∷ b'l' ∷ b'l' ∷ b'o' ∷ b't' ∷ []
list_name Colon.interp = b'i' ∷ b'n' ∷ b't' ∷ b'e' ∷ b'r' ∷ b'p' ∷ []
list_name Colon.load = b'l' ∷ b'o' ∷ b'a' ∷ b'd' ∷ []
list_name Colon.mem_used = b'm' ∷ b'e' ∷ b'm' ∷ b'-' ∷ b'u' ∷ b's' ∷ b'e' ∷ b'd' ∷ []
list_name Colon.mem_info = b'm' ∷ b'e' ∷ b'm' ∷ b'-' ∷ b'i' ∷ b'n' ∷ b'f' ∷ b'o' ∷ []
list_name Colon.boot = b'b' ∷ b'o' ∷ b'o' ∷ b't' ∷ []

unfoldable pub constant_name : Const → List ℕ
constant_name Const.cell_size = b'c' ∷ b'e' ∷ b'l' ∷ b'l' ∷ b'-' ∷ b's' ∷ b'i' ∷ b'z' ∷ b'e' ∷ []
constant_name Const.standard_input =
    b's' ∷ b't' ∷ b'a' ∷ b'n' ∷ b'd' ∷ b'a' ∷ b'r' ∷ b'd' ∷ b'-' ∷ b'i' ∷ b'n' ∷ b'p' ∷ b'u' ∷ b't'
    ∷ []
constant_name Const.standard_output =
    b's' ∷ b't' ∷ b'a' ∷ b'n' ∷ b'd' ∷ b'a' ∷ b'r' ∷ b'd' ∷ b'-' ∷ b'o' ∷ b'u' ∷ b't' ∷ b'p' ∷ b'u'
    ∷ b't' ∷ []
constant_name Const.standard_error =
    b's' ∷ b't' ∷ b'a' ∷ b'n' ∷ b'd' ∷ b'a' ∷ b'r' ∷ b'd' ∷ b'-' ∷ b'e' ∷ b'r' ∷ b'r' ∷ b'o' ∷ b'r'
    ∷ []
constant_name Const.zero = b'0' ∷ []
constant_name Const.one = b'1' ∷ []
constant_name Const.mone = b'-' ∷ b'1' ∷ []
constant_name Const.two = b'2' ∷ []
constant_name Const.three = b'3' ∷ []
constant_name Const.four = b'4' ∷ []
constant_name Const.sixteen = b'1' ∷ b'6' ∷ []
constant_name _ = []

unfoldable pub variable_name : Var → List ℕ
variable_name Var.current_input =
    b'c' ∷ b'u' ∷ b'r' ∷ b'r' ∷ b'e' ∷ b'n' ∷ b't' ∷ b'-' ∷ b'i' ∷ b'n' ∷ b'p' ∷ b'u' ∷ b't' ∷ []
variable_name Var.current_output =
    b'c' ∷ b'u' ∷ b'r' ∷ b'r' ∷ b'e' ∷ b'n' ∷ b't' ∷ b'-' ∷ b'o' ∷ b'u' ∷ b't' ∷ b'p' ∷ b'u' ∷ b't'
    ∷ []
variable_name Var.current_error =
    b'c' ∷ b'u' ∷ b'r' ∷ b'r' ∷ b'e' ∷ b'n' ∷ b't' ∷ b'-' ∷ b'e' ∷ b'r' ∷ b'r' ∷ b'o' ∷ b'r' ∷ []
variable_name Var.input_buffer =
    b'i' ∷ b'n' ∷ b'p' ∷ b'u' ∷ b't' ∷ b'-' ∷ b'b' ∷ b'u' ∷ b'f' ∷ b'f' ∷ b'e' ∷ b'r' ∷ []
variable_name Var.input_buffer_max_size =
    b'i' ∷ b'n' ∷ b'p' ∷ b'u' ∷ b't' ∷ b'-' ∷ b'b' ∷ b'u' ∷ b'f' ∷ b'f' ∷ b'e' ∷ b'r' ∷ b'-' ∷ b'm'
    ∷ b'a' ∷ b'x' ∷ b'-' ∷ b's' ∷ b'i' ∷ b'z' ∷ b'e' ∷ []
variable_name Var.input_buffer_size =
    b'i' ∷ b'n' ∷ b'p' ∷ b'u' ∷ b't' ∷ b'-' ∷ b'b' ∷ b'u' ∷ b'f' ∷ b'f' ∷ b'e' ∷ b'r' ∷ b'-' ∷ b's'
    ∷ b'i' ∷ b'z' ∷ b'e' ∷ []
variable_name Var.input_buffer_offset =
    b'i' ∷ b'n' ∷ b'p' ∷ b'u' ∷ b't' ∷ b'-' ∷ b'b' ∷ b'u' ∷ b'f' ∷ b'f' ∷ b'e' ∷ b'r' ∷ b'-' ∷ b'o'
    ∷ b'f' ∷ b'f' ∷ b's' ∷ b'e' ∷ b't' ∷ []
variable_name Var.stack_top = b's' ∷ b't' ∷ b'a' ∷ b'c' ∷ b'k' ∷ b'-' ∷ b't' ∷ b'o' ∷ b'p' ∷ []
variable_name Var.stack_prompt =
    b's' ∷ b't' ∷ b'a' ∷ b'c' ∷ b'k' ∷ b'-' ∷ b'p' ∷ b'r' ∷ b'o' ∷ b'm' ∷ b'p' ∷ b't' ∷ []
variable_name Var.token_buffer =
    b't' ∷ b'o' ∷ b'k' ∷ b'e' ∷ b'n' ∷ b'-' ∷ b'b' ∷ b'u' ∷ b'f' ∷ b'f' ∷ b'e' ∷ b'r' ∷ []
variable_name Var.token_buffer_size =
    b't' ∷ b'o' ∷ b'k' ∷ b'e' ∷ b'n' ∷ b'-' ∷ b'b' ∷ b'u' ∷ b'f' ∷ b'f' ∷ b'e' ∷ b'r' ∷ b'-' ∷ b's'
    ∷ b'i' ∷ b'z' ∷ b'e' ∷ []
variable_name Var.istate = b'i' ∷ b's' ∷ b't' ∷ b'a' ∷ b't' ∷ b'e' ∷ []
variable_name Var.xvar = b'x' ∷ []

-- The string of the `name` cell.
unfoldable pub name : Entry → List ℕ
unfolding function_name list_name constant_name variable_name
name (function o) = function_name o
name (list c) = list_name c
name (constant c) = constant_name c
name (variable v) = variable_name v

unfoldable pub same_name : List ℕ → List ℕ → Bool
same_name [] [] = true
same_name (x ∷ xs) (y ∷ ys) = (x == y) && same_name xs ys
same_name _ _ = false

-- The search of lookup, from a word down the links: the first word of that name.
unfoldable pub find : ℕ → Entry → List ℕ → Option Entry
unfolding name same_name next
find zero e s = none
find (suc n) e s =
    let rest : Option Entry = elim (next e) [ none ↦ none | some f ↦ find n f s ] in
    if same_name s (name e) then some e else rest
