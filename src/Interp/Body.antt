-- ===== src/Interp/Body.antt =====
-- Which list each word of misc/c/c4-interp.c has.
use north_arm.Prelude.{List}
use north_arm.Interp.Display
use north_arm.Interp.Input
use north_arm.Interp.Tokens
use north_arm.Interp.Dictionary
use north_arm.Interp.Arrays
use north_arm.Interp.Outer
use north_arm.Interp.Item.{Colon, Item}

unfoldable pub body : Colon → List Item
body Colon.words1 = Display.words1
body Colon.words = Display.words
body Colon.pick = Arrays.pick
body Colon.nl = Display.nl
body Colon.dot = Display.dot
body Colon.memdump = Display.memdump
body Colon.dump_stack = Display.dump_stack
body Colon.prompt = Display.prompt
body Colon.read_byte = Input.read_byte
body Colon.is_space = Input.is_space
body Colon.is_newline = Input.is_newline
body Colon.read_line3 = Input.read_line3
body Colon.null_terminate = Input.null_terminate
body Colon.refill_input_buffer = Input.refill_input_buffer
body Colon.input_buffer_read_byte = Input.input_buffer_read_byte
body Colon.eat_spaces = Tokens.eat_spaces
body Colon.read_token3 = Tokens.read_token3
body Colon.read_token = Tokens.read_token
body Colon.dict_entry_name = Dictionary.dict_entry_name
body Colon.dict_entry_code = Dictionary.dict_entry_code
body Colon.dict_entry_data = Dictionary.dict_entry_data
body Colon.dict_entry_next = Dictionary.dict_entry_next
body Colon.byte_string_equals4 = Dictionary.byte_string_equals4
body Colon.byte_string_equals3 = Dictionary.byte_string_equals3
body Colon.lookup = Dictionary.lookup
body Colon.quote = Dictionary.quote
body Colon.swap_places = Arrays.swap_places
body Colon.reverse3 = Arrays.reverse3
body Colon.reverse = Arrays.reverse
body Colon.nseq = Arrays.nseq
body Colon.interp_loop = Outer.interp_loop
body Colon.rbracket = Outer.rbracket
body Colon.compile = Outer.compile
body Colon.lbracket = Outer.lbracket
body Colon.stack_allot = Outer.stack_allot
body Colon.interp = Outer.interp
body Colon.load = Outer.load
body Colon.mem_used = Display.mem_used
body Colon.mem_info = Display.mem_info
body Colon.boot = Outer.boot
