-- ===== src/Interp/Outer.antt =====
-- The words of misc/c/c4-interp.c that interpret and compile, and the first word to run.
use north_arm.Prelude.{List, [], ◌∷◌}
use north_arm.C5.Op.{Op}
use north_arm.Interp.Item.{
  Item, Colon, Const, Text, Var, constant, neg, num, op, text, variable, word,
}

unfoldable pub interp_loop : List Item
interp_loop =
    op Op.rpush
    ∷ op Op.here
    ∷ variable Var.stack_prompt
    ∷ op Op.poke
    ∷ variable Var.token_buffer
    ∷ op Op.peek
    ∷ variable Var.token_buffer_size
    ∷ op Op.peek
    ∷ word Colon.read_token
    ∷ op Op.fdup
    ∷ op Op.literal
    ∷ num 0
    ∷ op Op.int_lte
    ∷ op Op.literal
    ∷ num 18
    ∷ op Op.ifjump
    ∷ op Op.dict
    ∷ word Colon.lookup
    ∷ op Op.literal
    ∷ num 6
    ∷ op Op.unlessjump
    ∷ variable Var.istate
    ∷ op Op.peek
    ∷ op Op.exec
    ∷ op Op.literal
    ∷ num 4
    ∷ op Op.jumprel
    ∷ op Op.drop
    ∷ op Op.literal
    ∷ text Text.not_found
    ∷ op Op.cputs
    ∷ op Op.literal
    ∷ neg 33
    ∷ op Op.jumprel
    ∷ op Op.literal
    ∷ text Text.bye_str
    ∷ op Op.cputs
    ∷ op Op.rpop
    ∷ op Op.return0
    ∷ []

unfoldable pub rbracket : List Item
rbracket =
    op Op.literal
    ∷ op Op.exec
    ∷ variable Var.istate
    ∷ op Op.poke
    ∷ op Op.here
    ∷ constant Const.cell_size
    ∷ op Op.int_add
    ∷ op Op.swap
    ∷ op Op.return0
    ∷ []

unfoldable pub compile : List Item
compile =
    op Op.over
    ∷ op Op.literal
    ∷ word Colon.rbracket
    ∷ op Op.equals
    ∷ op Op.literal
    ∷ num 1
    ∷ op Op.ifjump
    ∷ op Op.return0
    ∷ op Op.rpush
    ∷ op Op.exec
    ∷ op Op.rpop
    ∷ op Op.return0
    ∷ []

unfoldable pub lbracket : List Item
lbracket =
    op Op.literal ∷ word Colon.compile ∷ variable Var.istate ∷ op Op.poke ∷ op Op.return0 ∷ []

unfoldable pub stack_allot : List Item
stack_allot =
    op Op.rpush
    ∷ op Op.here
    ∷ op Op.swap
    ∷ op Op.uint_sub
    ∷ op Op.move
    ∷ op Op.here
    ∷ op Op.rpop
    ∷ op Op.return0
    ∷ []

unfoldable pub interp : List Item
interp =
    op Op.rpush
    ∷ op Op.literal
    ∷ num 128
    ∷ word Colon.stack_allot
    ∷ variable Var.token_buffer
    ∷ op Op.poke
    ∷ op Op.literal
    ∷ num 128
    ∷ variable Var.token_buffer_size
    ∷ op Op.poke
    ∷ op Op.literal
    ∷ num 1024
    ∷ word Colon.stack_allot
    ∷ variable Var.input_buffer
    ∷ op Op.poke
    ∷ op Op.literal
    ∷ num 1024
    ∷ variable Var.input_buffer_max_size
    ∷ op Op.poke
    ∷ word Colon.interp_loop
    ∷ op Op.literal
    ∷ num 0
    ∷ variable Var.token_buffer
    ∷ op Op.poke
    ∷ op Op.literal
    ∷ num 0
    ∷ variable Var.token_buffer_size
    ∷ op Op.poke
    ∷ op Op.rpop
    ∷ op Op.return0
    ∷ []

unfoldable pub load : List Item
load =
    op Op.rpush
    ∷ variable Var.current_input
    ∷ op Op.peek
    ∷ op Op.rpush
    ∷ variable Var.current_input
    ∷ op Op.poke
    ∷ word Colon.interp_loop
    ∷ op Op.rpop
    ∷ variable Var.current_input
    ∷ op Op.poke
    ∷ op Op.rpop
    ∷ op Op.return0
    ∷ []

unfoldable pub boot : List Item
boot =
    op Op.here
    ∷ variable Var.stack_top
    ∷ op Op.poke
    ∷ word Colon.mem_info
    ∷ word Colon.interp
    ∷ op Op.return0
    ∷ []
