-- ===== src/Interp/Tokens.antt =====
-- The words of misc/c/c4-interp.c that read tokens.
use north_arm.Prelude.{List, [], ◌∷◌}
use north_arm.C5.Op.{Op}
use north_arm.Interp.Item.{Item, Colon, neg, num, op, word}

unfoldable pub eat_spaces : List Item
eat_spaces =
    word Colon.input_buffer_read_byte
    ∷ op Op.fdup
    ∷ word Colon.is_newline
    ∷ op Op.literal
    ∷ num 4
    ∷ op Op.unlessjump
    ∷ op Op.drop
    ∷ op Op.literal
    ∷ neg 10
    ∷ op Op.jumprel
    ∷ op Op.fdup
    ∷ word Colon.is_space
    ∷ op Op.literal
    ∷ num 4
    ∷ op Op.unlessjump
    ∷ op Op.drop
    ∷ op Op.literal
    ∷ neg 19
    ∷ op Op.jumprel
    ∷ op Op.swap
    ∷ op Op.return0
    ∷ []

unfoldable pub read_token3 : List Item
read_token3 =
    word Colon.eat_spaces
    ∷ op Op.literal
    ∷ num 1
    ∷ op Op.jumprel
    ∷ word Colon.input_buffer_read_byte
    ∷ op Op.fdup
    ∷ op Op.literal
    ∷ num 0
    ∷ op Op.int_lt
    ∷ op Op.literal
    ∷ num 26
    ∷ op Op.ifjump
    ∷ op Op.fdup
    ∷ word Colon.is_newline
    ∷ op Op.literal
    ∷ num 21
    ∷ op Op.ifjump
    ∷ op Op.fdup
    ∷ word Colon.is_space
    ∷ op Op.literal
    ∷ num 16
    ∷ op Op.ifjump
    ∷ op Op.literal
    ∷ num 4
    ∷ word Colon.pick
    ∷ op Op.literal
    ∷ num 3
    ∷ word Colon.pick
    ∷ op Op.int_add
    ∷ op Op.poke_byte
    ∷ op Op.swap
    ∷ op Op.literal
    ∷ num 1
    ∷ op Op.int_add
    ∷ op Op.swap
    ∷ op Op.literal
    ∷ neg 34
    ∷ op Op.jumprel
    ∷ op Op.literal
    ∷ num 4
    ∷ word Colon.pick
    ∷ op Op.literal
    ∷ num 3
    ∷ word Colon.pick
    ∷ op Op.int_add
    ∷ op Op.literal
    ∷ num 0
    ∷ op Op.swap
    ∷ op Op.poke_byte
    ∷ op Op.drop
    ∷ op Op.shift
    ∷ op Op.drop
    ∷ op Op.return0
    ∷ []

unfoldable pub read_token : List Item
read_token =
    op Op.roll ∷ op Op.literal ∷ num 0 ∷ word Colon.read_token3 ∷ op Op.shift ∷ op Op.return0 ∷ []
