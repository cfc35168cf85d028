-- ===== src/Interp/Input.antt =====
-- The words of misc/c/c4-interp.c that read lines and bytes.
use north_arm.Prelude.{List, [], ◌∷◌}
use north_arm.C5.Op.{Op}
use north_arm.Interp.Item.{Item, Colon, Var, neg, num, op, variable, word}

unfoldable pub read_byte : List Item
read_byte =
    op Op.literal
    ∷ num 0
    ∷ op Op.here
    ∷ op Op.literal
    ∷ num 1
    ∷ op Op.swap
    ∷ variable Var.current_input
    ∷ op Op.peek
    ∷ op Op.cread
    ∷ op Op.fdup
    ∷ op Op.literal
    ∷ num 0
    ∷ op Op.int_lte
    ∷ op Op.literal
    ∷ num 3
    ∷ op Op.ifjump
    ∷ op Op.drop
    ∷ op Op.swap
    ∷ op Op.return0
    ∷ op Op.swap
    ∷ op Op.drop
    ∷ op Op.literal
    ∷ neg 1
    ∷ op Op.int_add
    ∷ op Op.swap
    ∷ op Op.return0
    ∷ []

unfoldable pub is_space : List Item
is_space = op Op.swap ∷ op Op.literal ∷ num 32 ∷ op Op.equals ∷ op Op.swap ∷ op Op.return0 ∷ []

unfoldable pub is_newline : List Item
is_newline = op Op.swap ∷ op Op.literal ∷ num 10 ∷ op Op.equals ∷ op Op.swap ∷ op Op.return0 ∷ []

unfoldable pub read_line3 : List Item
read_line3 =
    op Op.literal
    ∷ num 2
    ∷ word Colon.pick
    ∷ op Op.literal
    ∷ num 2
    ∷ word Colon.pick
    ∷ op Op.int_lte
    ∷ op Op.literal
    ∷ num 3
    ∷ op Op.unlessjump
    ∷ op Op.shift
    ∷ op Op.drop
    ∷ op Op.return0
    ∷ word Colon.read_byte
    ∷ op Op.fdup
    ∷ op Op.literal
    ∷ num 0
    ∷ op Op.int_lt
    ∷ op Op.literal
    ∷ num 4
    ∷ op Op.unlessjump
    ∷ op Op.drop
    ∷ op Op.shift
    ∷ op Op.drop
    ∷ op Op.return0
    ∷ op Op.fdup
    ∷ op Op.literal
    ∷ num 5
    ∷ word Colon.pick
    ∷ op Op.literal
    ∷ num 4
    ∷ word Colon.pick
    ∷ op Op.int_add
    ∷ op Op.poke_byte
    ∷ op Op.rot
    ∷ op Op.literal
    ∷ num 1
    ∷ op Op.int_add
    ∷ op Op.rot
    ∷ word Colon.is_newline
    ∷ op Op.literal
    ∷ num 3
    ∷ op Op.unlessjump
    ∷ op Op.shift
    ∷ op Op.drop
    ∷ op Op.return0
    ∷ op Op.literal
    ∷ neg 49
    ∷ op Op.jumprel
    ∷ []

unfoldable pub null_terminate : List Item
null_terminate =
    op Op.shift
    ∷ op Op.shift
    ∷ op Op.int_add
    ∷ op Op.literal
    ∷ num 0
    ∷ op Op.swap
    ∷ op Op.poke_byte
    ∷ op Op.return0
    ∷ []

unfoldable pub refill_input_buffer : List Item
refill_input_buffer =
    word Colon.prompt
    ∷ variable Var.input_buffer
    ∷ op Op.peek
    ∷ variable Var.input_buffer_max_size
    ∷ op Op.peek
    ∷ op Op.literal
    ∷ num 0
    ∷ word Colon.read_line3
    ∷ op Op.fdup
    ∷ op Op.literal
    ∷ num 0
    ∷ op Op.int_lte
    ∷ op Op.literal
    ∷ num 3
    ∷ op Op.ifjump
    ∷ op Op.over
    ∷ op Op.over
    ∷ word Colon.null_terminate
    ∷ op Op.swap
    ∷ op Op.drop
    ∷ op Op.fdup
    ∷ variable Var.input_buffer_size
    ∷ op Op.poke
    ∷ op Op.literal
    ∷ num 0
    ∷ variable Var.input_buffer_offset
    ∷ op Op.poke
    ∷ op Op.literal
    ∷ num 0
    ∷ op Op.int_lte
    ∷ op Op.literal
    ∷ num 4
    ∷ op Op.unlessjump
    ∷ op Op.literal
    ∷ num 0
    ∷ op Op.swap
    ∷ op Op.return0
    ∷ op Op.literal
    ∷ num 1
    ∷ op Op.swap
    ∷ op Op.return0
    ∷ []

unfoldable pub input_buffer_read_byte : List Item
input_buffer_read_byte =
    variable Var.input_buffer_size
    ∷ op Op.peek
    ∷ op Op.fdup
    ∷ op Op.literal
    ∷ num 0
    ∷ op Op.int_lt
    ∷ op Op.literal
    ∷ num 2
    ∷ op Op.unlessjump
    ∷ op Op.swap
    ∷ op Op.return0
    ∷ variable Var.input_buffer_offset
    ∷ op Op.peek
    ∷ op Op.swap
    ∷ op Op.int_lt
    ∷ op Op.literal
    ∷ num 11
    ∷ op Op.ifjump
    ∷ word Colon.refill_input_buffer
    ∷ op Op.literal
    ∷ num 4
    ∷ op Op.ifjump
    ∷ op Op.literal
    ∷ neg 1
    ∷ op Op.swap
    ∷ op Op.return0
    ∷ op Op.literal
    ∷ neg 29
    ∷ op Op.jumprel
    ∷ variable Var.input_buffer
    ∷ op Op.peek
    ∷ variable Var.input_buffer_offset
    ∷ op Op.peek
    ∷ op Op.int_add
    ∷ op Op.peek_byte
    ∷ variable Var.input_buffer_offset
    ∷ op Op.peek
    ∷ op Op.literal
    ∷ num 1
    ∷ op Op.int_add
    ∷ variable Var.input_buffer_offset
    ∷ op Op.poke
    ∷ op Op.swap
    ∷ op Op.return0
    ∷ []
