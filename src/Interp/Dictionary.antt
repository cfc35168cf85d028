-- ===== src/Interp/Dictionary.antt =====
-- The words of misc/c/c4-interp.c that look into the dictionary.
use north_arm.Prelude.{List, [], ◌∷◌}
use north_arm.C5.Op.{Op}
use north_arm.Interp.Item.{Item, Colon, Const, Text, constant, neg, num, op, text, word}

unfoldable pub dict_entry_name : List Item
dict_entry_name =
    op Op.swap ∷ op Op.literal ∷ num 0 ∷ op Op.int_add ∷ op Op.swap ∷ op Op.return0 ∷ []

unfoldable pub dict_entry_code : List Item
dict_entry_code =
    op Op.swap ∷ op Op.literal ∷ num 8 ∷ op Op.int_add ∷ op Op.swap ∷ op Op.return0 ∷ []

unfoldable pub dict_entry_data : List Item
dict_entry_data =
    op Op.swap ∷ op Op.literal ∷ num 16 ∷ op Op.int_add ∷ op Op.swap ∷ op Op.return0 ∷ []

unfoldable pub dict_entry_next : List Item
dict_entry_next =
    op Op.swap ∷ op Op.literal ∷ num 24 ∷ op Op.int_add ∷ op Op.swap ∷ op Op.return0 ∷ []

unfoldable pub byte_string_equals4 : List Item
byte_string_equals4 =
    op Op.over
    ∷ op Op.literal
    ∷ num 3
    ∷ word Colon.pick
    ∷ op Op.int_lte
    ∷ op Op.literal
    ∷ num 14
    ∷ op Op.ifjump
    ∷ op Op.roll
    ∷ op Op.swap
    ∷ op Op.drop
    ∷ op Op.roll
    ∷ op Op.swap
    ∷ op Op.drop
    ∷ op Op.roll
    ∷ op Op.swap
    ∷ op Op.drop
    ∷ op Op.drop
    ∷ op Op.literal
    ∷ num 1
    ∷ op Op.swap
    ∷ op Op.return0
    ∷ op Op.over
    ∷ op Op.literal
    ∷ num 5
    ∷ word Colon.pick
    ∷ op Op.int_add
    ∷ op Op.peek_byte
    ∷ op Op.literal
    ∷ num 2
    ∷ word Colon.pick
    ∷ op Op.literal
    ∷ num 5
    ∷ word Colon.pick
    ∷ op Op.int_add
    ∷ op Op.peek_byte
    ∷ op Op.equals
    ∷ op Op.literal
    ∷ num 14
    ∷ op Op.ifjump
    ∷ op Op.roll
    ∷ op Op.swap
    ∷ op Op.drop
    ∷ op Op.roll
    ∷ op Op.swap
    ∷ op Op.drop
    ∷ op Op.roll
    ∷ op Op.swap
    ∷ op Op.drop
    ∷ op Op.drop
    ∷ op Op.literal
    ∷ num 0
    ∷ op Op.swap
    ∷ op Op.return0
    ∷ op Op.swap
    ∷ op Op.literal
    ∷ num 1
    ∷ op Op.int_add
    ∷ op Op.swap
    ∷ op Op.literal
    ∷ neg 62
    ∷ op Op.jumprel
    ∷ []

unfoldable pub byte_string_equals3 : List Item
byte_string_equals3 =
    op Op.literal
    ∷ num 3
    ∷ word Colon.pick
    ∷ op Op.literal
    ∷ num 3
    ∷ word Colon.pick
    ∷ op Op.literal
    ∷ num 3
    ∷ word Colon.pick
    ∷ op Op.literal
    ∷ num 0
    ∷ word Colon.byte_string_equals4
    ∷ op Op.roll
    ∷ op Op.swap
    ∷ op Op.drop
    ∷ op Op.roll
    ∷ op Op.swap
    ∷ op Op.drop
    ∷ op Op.roll
    ∷ op Op.swap
    ∷ op Op.drop
    ∷ op Op.return0
    ∷ []

unfoldable pub lookup : List Item
lookup =
    op Op.over
    ∷ op Op.literal
    ∷ num 12
    ∷ op Op.ifjump
    ∷ op Op.swap
    ∷ op Op.drop
    ∷ op Op.swap
    ∷ op Op.drop
    ∷ op Op.swap
    ∷ op Op.drop
    ∷ op Op.literal
    ∷ num 0
    ∷ op Op.swap
    ∷ op Op.over
    ∷ op Op.swap
    ∷ op Op.return0
    ∷ op Op.over
    ∷ word Colon.dict_entry_name
    ∷ op Op.peek
    ∷ op Op.literal
    ∷ num 4
    ∷ word Colon.pick
    ∷ op Op.literal
    ∷ num 4
    ∷ word Colon.pick
    ∷ word Colon.byte_string_equals3
    ∷ op Op.literal
    ∷ num 10
    ∷ op Op.unlessjump
    ∷ op Op.roll
    ∷ op Op.swap
    ∷ op Op.drop
    ∷ op Op.roll
    ∷ op Op.swap
    ∷ op Op.drop
    ∷ op Op.literal
    ∷ num 1
    ∷ op Op.swap
    ∷ op Op.return0
    ∷ op Op.swap
    ∷ word Colon.dict_entry_next
    ∷ op Op.peek
    ∷ op Op.swap
    ∷ op Op.literal
    ∷ neg 46
    ∷ op Op.jumprel
    ∷ []

unfoldable pub quote : List Item
quote =
    op Op.here
    ∷ op Op.rpush
    ∷ op Op.literal
    ∷ num 0
    ∷ op Op.literal
    ∷ num 0
    ∷ op Op.literal
    ∷ num 0
    ∷ op Op.literal
    ∷ num 0
    ∷ op Op.here
    ∷ op Op.literal
    ∷ num 32
    ∷ word Colon.read_token
    ∷ op Op.fdup
    ∷ op Op.literal
    ∷ num 0
    ∷ op Op.int_lte
    ∷ op Op.literal
    ∷ num 14
    ∷ op Op.ifjump
    ∷ op Op.dict
    ∷ word Colon.lookup
    ∷ op Op.literal
    ∷ num 9
    ∷ op Op.unlessjump
    ∷ op Op.rpop
    ∷ constant Const.cell_size
    ∷ op Op.int_sub
    ∷ op Op.over
    ∷ op Op.over
    ∷ op Op.poke
    ∷ op Op.move
    ∷ op Op.swap
    ∷ op Op.return0
    ∷ op Op.literal
    ∷ text Text.not_found
    ∷ op Op.cputs
    ∷ op Op.rpop
    ∷ op Op.move
    ∷ op Op.literal
    ∷ num 0
    ∷ op Op.swap
    ∷ op Op.return0
    ∷ []
