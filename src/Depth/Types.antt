-- ===== src/Depth/Types.antt =====
-- How many cells the words of misc/c/c4-interp.c and misc/c/c4-words-def.c take, and how many they
-- leave. A word that has no entry runs a word that it is given, or moves the stack by a number that
-- it is given.
use north_arm.Prelude.{ℕ, Option, none, some}
use north_arm.Interp.Item.{Colon}

abbrev pub type_of : Colon → Option (ℕ × ℕ)
type_of Colon.words1 = some (1, 0)
type_of Colon.words = some (0, 0)
type_of Colon.pick = some (1, 1)
type_of Colon.nl = some (0, 0)
type_of Colon.dot = some (1, 1)
type_of Colon.memdump = some (2, 0)
type_of Colon.dump_stack = some (0, 0)
type_of Colon.prompt = some (0, 0)
type_of Colon.read_byte = some (0, 1)
type_of Colon.is_space = some (1, 1)
type_of Colon.is_newline = some (1, 1)
type_of Colon.read_line3 = some (2, 1)
type_of Colon.null_terminate = some (2, 0)
type_of Colon.refill_input_buffer = some (0, 1)
type_of Colon.input_buffer_read_byte = some (0, 1)
type_of Colon.eat_spaces = some (0, 1)
type_of Colon.read_token3 = some (2, 1)
type_of Colon.read_token = some (2, 2)
type_of Colon.dict_entry_name = some (1, 1)
type_of Colon.dict_entry_code = some (1, 1)
type_of Colon.dict_entry_data = some (1, 1)
type_of Colon.dict_entry_next = some (1, 1)
type_of Colon.byte_string_equals4 = some (4, 1)
type_of Colon.byte_string_equals3 = some (3, 1)
type_of Colon.lookup = some (3, 2)
type_of Colon.swap_places = some (2, 0)
type_of Colon.reverse3 = some (1, 1)
type_of Colon.reverse = some (2, 0)
type_of Colon.rbracket = some (0, 1)
type_of Colon.lbracket = some (0, 0)
type_of Colon.mem_used = some (0, 1)
type_of Colon.mem_info = some (0, 0)
type_of _ = none
