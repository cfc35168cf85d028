-- ===== src/Interp/Display.antt =====
-- The words of misc/c/c4-words-def.c and misc/c/c4-interp.c that print.
use north_arm.Prelude.{List, [], ◌∷◌}
use north_arm.C5.Op.{Op}
use north_arm.Interp.Item.{
  Item, Colon, Const, Text, Var, constant, neg, num, op, text, variable, word,
}

unfoldable pub words1 : List Item
words1 =
    op Op.swap
    ∷ op Op.literal
    ∷ constant Const.doconst
    ∷ op Op.swap
    ∷ op Op.literal
    ∷ text Text.words1_s1
    ∷ op Op.cputs
    ∷ op Op.over
    ∷ op Op.over
    ∷ op Op.swap
    ∷ op Op.int_sub
    ∷ op Op.write_hex_int
    ∷ op Op.fdup
    ∷ op Op.write_hex_int
    ∷ op Op.fdup
    ∷ op Op.literal
    ∷ num 0
    ∷ op Op.int_add
    ∷ op Op.peek
    ∷ op Op.write_hex_int
    ∷ op Op.fdup
    ∷ op Op.literal
    ∷ num 8
    ∷ op Op.int_add
    ∷ op Op.peek
    ∷ op Op.write_hex_int
    ∷ op Op.fdup
    ∷ op Op.literal
    ∷ num 16
    ∷ op Op.int_add
    ∷ op Op.peek
    ∷ op Op.write_hex_int
    ∷ op Op.fdup
    ∷ op Op.peek
    ∷ op Op.cputs
    ∷ op Op.literal
    ∷ num 24
    ∷ op Op.int_add
    ∷ op Op.peek
    ∷ op Op.fdup
    ∷ op Op.literal
    ∷ neg 36
    ∷ op Op.ifjump
    ∷ op Op.drop
    ∷ op Op.drop
    ∷ op Op.return0
    ∷ []

unfoldable pub words : List Item
words = op Op.dict ∷ word Colon.words1 ∷ op Op.return0 ∷ []

unfoldable pub nl : List Item
nl = op Op.literal ∷ text Text.empty_string ∷ op Op.cputs ∷ op Op.return0 ∷ []

unfoldable pub dot : List Item
dot = op Op.over ∷ op Op.write_int ∷ word Colon.nl ∷ op Op.return0 ∷ []

unfoldable pub memdump : List Item
memdump =
    op Op.over
    ∷ op Op.literal
    ∷ num 0
    ∷ op Op.int_lte
    ∷ op Op.literal
    ∷ num 6
    ∷ op Op.unlessjump
    ∷ word Colon.nl
    ∷ op Op.swap
    ∷ op Op.drop
    ∷ op Op.swap
    ∷ op Op.drop
    ∷ op Op.return0
    ∷ op Op.literal
    ∷ num 2
    ∷ word Colon.pick
    ∷ op Op.peek
    ∷ op Op.write_hex_int
    ∷ op Op.roll
    ∷ constant Const.cell_size
    ∷ op Op.int_sub
    ∷ op Op.roll
    ∷ constant Const.cell_size
    ∷ op Op.int_add
    ∷ op Op.roll
    ∷ op Op.literal
    ∷ neg 28
    ∷ op Op.jumprel
    ∷ []

unfoldable pub dump_stack : List Item
dump_stack =
    op Op.literal
    ∷ text Text.dump_stack_s1
    ∷ op Op.cputs
    ∷ op Op.here
    ∷ op Op.fdup
    ∷ op Op.write_hex_int
    ∷ variable Var.stack_top
    ∷ op Op.peek
    ∷ op Op.fdup
    ∷ op Op.write_hex_int
    ∷ op Op.over
    ∷ op Op.ptr_sub
    ∷ op Op.fdup
    ∷ op Op.write_uint
    ∷ op Op.literal
    ∷ text Text.empty_string
    ∷ op Op.cputs
    ∷ op Op.fdup
    ∷ op Op.write_int
    ∷ word Colon.memdump
    ∷ op Op.return0
    ∷ []

unfoldable pub prompt : List Item
prompt =
    variable Var.stack_prompt
    ∷ op Op.peek
    ∷ op Op.fdup
    ∷ op Op.write_hex_int
    ∷ op Op.fdup
    ∷ op Op.literal
    ∷ num 1
    ∷ op Op.unlessjump
    ∷ op Op.peek
    ∷ op Op.write_int
    ∷ op Op.literal
    ∷ text Text.prompt_str
    ∷ op Op.write_string
    ∷ variable Var.current_output
    ∷ op Op.peek
    ∷ op Op.flush
    ∷ op Op.return0
    ∷ []

unfoldable pub mem_used : List Item
mem_used =
    variable Var.stack_top
    ∷ op Op.peek
    ∷ op Op.here
    ∷ op Op.ptr_sub
    ∷ op Op.swap
    ∷ op Op.return0
    ∷ []

unfoldable pub mem_info : List Item
mem_info =
    op Op.literal
    ∷ text Text.mem_info_stack_str
    ∷ op Op.write_string
    ∷ word Colon.mem_used
    ∷ op Op.write_uint
    ∷ op Op.literal
    ∷ text Text.crnl_str
    ∷ op Op.write_string
    ∷ op Op.literal
    ∷ text Text.mem_info_rstack_str
    ∷ op Op.write_string
    ∷ op Op.ram_used
    ∷ op Op.write_uint
    ∷ op Op.literal
    ∷ text Text.crnl_str
    ∷ op Op.write_string
    ∷ op Op.return0
    ∷ []
