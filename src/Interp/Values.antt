-- ===== src/Interp/Values.antt =====
-- What the constants, variables and character arrays of misc/c/c4-interp.c start as.
use north_arm.Prelude.{ℕ, List, [], ◌∷◌}
use north_arm.Prelude.Int.{ℤ, pos, negsuc}
use north_arm.C5.Op.{Op}
use north_arm.Interp.Item.{Const, Var, Text}

-- A number, the address of a C function, or that of a word that a C function defines.
pub data Value : Type 0 where
  number : ℤ → Value
  function : Op → Value
  primitive : Op → Value

unfoldable pub const_value : Const → Value
const_value Const.doconst = function Op.doconst
const_value Const.doop = function Op.doop
const_value Const.cell_size = number (pos 8)
const_value Const.standard_input = number (pos 0)
const_value Const.standard_output = number (pos 1)
const_value Const.standard_error = number (pos 2)
const_value Const.zero = number (pos 0)
const_value Const.one = number (pos 1)
const_value Const.mone = number (negsuc 0)
const_value Const.two = number (pos 2)
const_value Const.three = number (pos 3)
const_value Const.four = number (pos 4)
const_value Const.sixteen = number (pos 16)

unfoldable pub initial : Var → Value
initial Var.current_input = number (pos 0)
initial Var.current_output = number (pos 1)
initial Var.current_error = number (pos 2)
initial Var.input_buffer = number (pos 0)
initial Var.input_buffer_max_size = number (pos 0)
initial Var.input_buffer_size = number (pos 0)
initial Var.input_buffer_offset = number (pos 0)
initial Var.stack_top = number (pos 0)
initial Var.stack_prompt = number (pos 0)
initial Var.token_buffer = number (pos 0)
initial Var.token_buffer_size = number (pos 0)
initial Var.istate = primitive Op.exec
initial Var.xvar = number (pos 305419896)

-- The characters, without the terminating zero.
unfoldable pub chars : Text → List ℕ
chars Text.words1_s1 = 87 ∷ 111 ∷ 114 ∷ 100 ∷ 115 ∷ []
chars Text.crnl_str = 13 ∷ 10 ∷ []
chars Text.empty_string = []
chars Text.dump_stack_s1 = 83 ∷ 116 ∷ 97 ∷ 99 ∷ 107 ∷ []
chars Text.prompt_str = 62 ∷ 32 ∷ []
chars Text.not_found = 78 ∷ 111 ∷ 116 ∷ 32 ∷ 102 ∷ 111 ∷ 117 ∷ 110 ∷ 100 ∷ 46 ∷ []
chars Text.bye_str = 66 ∷ 121 ∷ 101 ∷ []
chars Text.mem_info_ram_str = 70 ∷ 114 ∷ 101 ∷ 101 ∷ 32 ∷ 82 ∷ 65 ∷ 77 ∷ 58 ∷ 9 ∷ []
chars Text.mem_info_rstack_str = 82 ∷ 115 ∷ 116 ∷ 97 ∷ 99 ∷ 107 ∷ 58 ∷ 9 ∷ []
chars Text.mem_info_stack_str = 83 ∷ 116 ∷ 97 ∷ 99 ∷ 107 ∷ 58 ∷ 9 ∷ []
