-- ===== src/Interp/Item.antt =====
-- The contents of a word list of misc/c/c4-interp.c.
use north_arm.Prelude.{ℕ}
use north_arm.C5.Op.{Op}

-- The words that DEFCOL defines; `lbracket`, `rbracket` and `quote` are the words named [, ] and '.
pub data Colon : Type 0 where
  words1 words pick nl dot memdump dump_stack prompt read_byte is_space is_newline : Colon
  read_line3 null_terminate refill_input_buffer input_buffer_read_byte eat_spaces : Colon
  read_token3 read_token dict_entry_name dict_entry_code dict_entry_data : Colon
  dict_entry_next byte_string_equals4 byte_string_equals3 lookup quote swap_places : Colon
  reverse3 reverse nseq interp_loop rbracket compile lbracket stack_allot interp : Colon
  load mem_used mem_info boot : Colon

-- The words that DEFCONST and DEFCONST2 define, those of c5.c among them.
pub data Const : Type 0 where
  doconst doop cell_size standard_input standard_output standard_error zero one : Const
  mone two three four sixteen : Const

-- The words that DEFVAR2 and DEFVAR define.
pub data Var : Type 0 where
  current_input current_output current_error input_buffer input_buffer_max_size : Var
  input_buffer_size input_buffer_offset stack_top stack_prompt token_buffer : Var
  token_buffer_size istate xvar : Var

-- The character arrays.
pub data Text : Type 0 where
  words1_s1 crnl_str empty_string dump_stack_s1 prompt_str not_found bye_str : Text
  mem_info_ram_str mem_info_rstack_str mem_info_stack_str : Text

-- A cell of a list: a word, or the cell that `literal` pushes. `neg n` is the number -n.
pub data Item : Type 0 where
  op : Op → Item
  word : Colon → Item
  constant : Const → Item
  variable : Var → Item
  text : Text → Item
  num : ℕ → Item
  neg : ℕ → Item
