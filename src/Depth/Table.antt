-- ===== src/Depth/Table.antt =====
-- The depth of the stack before each item of a word list of misc/c/c4-interp.c or
-- misc/c/c4-words-def.c, with the frame, when the word finds no more cells than it takes. 0 stands
-- at the items that control does not come to.
use north_arm.Prelude.{ℕ, List, [], ◌∷◌}
use north_arm.Interp.Item.{Colon}

abbrev pub depths : Colon → List ℕ
depths Colon.words1 =
    2 ∷ 2 ∷ 0 ∷ 3 ∷ 3 ∷ 0 ∷ 4 ∷ 3 ∷ 4 ∷ 5 ∷ 5 ∷ 4 ∷ 3 ∷ 4 ∷ 3 ∷ 4 ∷ 0 ∷ 5 ∷ 4 ∷ 4 ∷ 3 ∷ 4 ∷ 0 ∷ 5
    ∷ 4 ∷ 4 ∷ 3 ∷ 4 ∷ 0 ∷ 5 ∷ 4 ∷ 4 ∷ 3 ∷ 4 ∷ 4 ∷ 3 ∷ 0 ∷ 4 ∷ 3 ∷ 3 ∷ 4 ∷ 0 ∷ 0 ∷ 3 ∷ 2 ∷ 1 ∷ []
depths Colon.words = 1 ∷ 2 ∷ 1 ∷ []
depths Colon.pick = 2 ∷ 2 ∷ 0 ∷ 3 ∷ 2 ∷ 3 ∷ 2 ∷ 3 ∷ 2 ∷ 2 ∷ 2 ∷ []
depths Colon.nl = 1 ∷ 0 ∷ 2 ∷ 1 ∷ []
depths Colon.dot = 2 ∷ 3 ∷ 2 ∷ 2 ∷ []
depths Colon.memdump =
    3 ∷ 4 ∷ 0 ∷ 5 ∷ 4 ∷ 0 ∷ 0 ∷ 3 ∷ 3 ∷ 3 ∷ 2 ∷ 2 ∷ 1 ∷ 3 ∷ 0 ∷ 4 ∷ 4 ∷ 4 ∷ 3 ∷ 3 ∷ 4 ∷ 3 ∷ 3 ∷ 4
    ∷ 3 ∷ 3 ∷ []
depths Colon.dump_stack =
    1 ∷ 0 ∷ 2 ∷ 1 ∷ 2 ∷ 3 ∷ 2 ∷ 3 ∷ 3 ∷ 4 ∷ 3 ∷ 4 ∷ 3 ∷ 4 ∷ 3 ∷ 0 ∷ 4 ∷ 3 ∷ 4 ∷ 3 ∷ 1 ∷ []
depths Colon.prompt = 1 ∷ 2 ∷ 2 ∷ 3 ∷ 2 ∷ 3 ∷ 0 ∷ 0 ∷ 2 ∷ 2 ∷ 1 ∷ 0 ∷ 2 ∷ 1 ∷ 2 ∷ 2 ∷ 1 ∷ []
depths Colon.read_byte =
    1 ∷ 0 ∷ 2 ∷ 3 ∷ 0 ∷ 4 ∷ 4 ∷ 5 ∷ 5 ∷ 3 ∷ 4 ∷ 0 ∷ 5 ∷ 4 ∷ 0 ∷ 0 ∷ 3 ∷ 2 ∷ 2 ∷ 3 ∷ 3 ∷ 2 ∷ 0 ∷ 3
    ∷ 2 ∷ 2 ∷ []
depths Colon.is_space = 2 ∷ 2 ∷ 0 ∷ 3 ∷ 2 ∷ 2 ∷ []
depths Colon.is_newline = 2 ∷ 2 ∷ 0 ∷ 3 ∷ 2 ∷ 2 ∷ []
depths Colon.read_line3 =
    3 ∷ 0 ∷ 4 ∷ 4 ∷ 0 ∷ 5 ∷ 5 ∷ 4 ∷ 0 ∷ 0 ∷ 3 ∷ 3 ∷ 2 ∷ 3 ∷ 4 ∷ 5 ∷ 0 ∷ 6 ∷ 5 ∷ 0 ∷ 0 ∷ 4 ∷ 3 ∷ 3
    ∷ 2 ∷ 4 ∷ 5 ∷ 0 ∷ 6 ∷ 6 ∷ 0 ∷ 7 ∷ 7 ∷ 6 ∷ 4 ∷ 4 ∷ 0 ∷ 5 ∷ 4 ∷ 4 ∷ 4 ∷ 0 ∷ 0 ∷ 3 ∷ 3 ∷ 2 ∷ 3 ∷ []
depths Colon.null_terminate = 3 ∷ 3 ∷ 3 ∷ 2 ∷ 0 ∷ 3 ∷ 3 ∷ 1 ∷ []
depths Colon.refill_input_buffer =
    1 ∷ 1 ∷ 2 ∷ 2 ∷ 3 ∷ 3 ∷ 0 ∷ 4 ∷ 3 ∷ 4 ∷ 0 ∷ 5 ∷ 4 ∷ 0 ∷ 0 ∷ 3 ∷ 4 ∷ 5 ∷ 3 ∷ 3 ∷ 2 ∷ 3 ∷ 4 ∷ 2
    ∷ 0 ∷ 3 ∷ 4 ∷ 2 ∷ 0 ∷ 3 ∷ 2 ∷ 0 ∷ 0 ∷ 1 ∷ 0 ∷ 2 ∷ 2 ∷ 1 ∷ 0 ∷ 2 ∷ 2 ∷ []
depths Colon.input_buffer_read_byte =
    1 ∷ 2 ∷ 2 ∷ 3 ∷ 0 ∷ 4 ∷ 3 ∷ 0 ∷ 0 ∷ 2 ∷ 2 ∷ 2 ∷ 3 ∷ 3 ∷ 3 ∷ 2 ∷ 0 ∷ 0 ∷ 1 ∷ 2 ∷ 0 ∷ 0 ∷ 1 ∷ 0
    ∷ 2 ∷ 2 ∷ 1 ∷ 0 ∷ 0 ∷ 1 ∷ 2 ∷ 2 ∷ 3 ∷ 3 ∷ 2 ∷ 2 ∷ 3 ∷ 3 ∷ 0 ∷ 4 ∷ 3 ∷ 4 ∷ 2 ∷ 2 ∷ []
depths Colon.eat_spaces =
    1 ∷ 2 ∷ 3 ∷ 3 ∷ 0 ∷ 0 ∷ 2 ∷ 1 ∷ 0 ∷ 0 ∷ 2 ∷ 3 ∷ 3 ∷ 0 ∷ 0 ∷ 2 ∷ 1 ∷ 0 ∷ 0 ∷ 2 ∷ 2 ∷ []
depths Colon.read_token3 =
    3 ∷ 4 ∷ 0 ∷ 0 ∷ 3 ∷ 4 ∷ 5 ∷ 0 ∷ 6 ∷ 5 ∷ 0 ∷ 0 ∷ 4 ∷ 5 ∷ 5 ∷ 0 ∷ 0 ∷ 4 ∷ 5 ∷ 5 ∷ 0 ∷ 0 ∷ 4 ∷ 0
    ∷ 5 ∷ 5 ∷ 0 ∷ 6 ∷ 6 ∷ 5 ∷ 3 ∷ 3 ∷ 0 ∷ 4 ∷ 3 ∷ 3 ∷ 0 ∷ 0 ∷ 4 ∷ 0 ∷ 5 ∷ 5 ∷ 0 ∷ 6 ∷ 6 ∷ 5 ∷ 0 ∷ 6
    ∷ 6 ∷ 4 ∷ 3 ∷ 3 ∷ 2 ∷ []
depths Colon.read_token = 3 ∷ 3 ∷ 0 ∷ 4 ∷ 3 ∷ 3 ∷ []
depths Colon.dict_entry_name = 2 ∷ 2 ∷ 0 ∷ 3 ∷ 2 ∷ 2 ∷ []
depths Colon.dict_entry_code = 2 ∷ 2 ∷ 0 ∷ 3 ∷ 2 ∷ 2 ∷ []
depths Colon.dict_entry_data = 2 ∷ 2 ∷ 0 ∷ 3 ∷ 2 ∷ 2 ∷ []
depths Colon.dict_entry_next = 2 ∷ 2 ∷ 0 ∷ 3 ∷ 2 ∷ 2 ∷ []
depths Colon.byte_string_equals4 =
    5 ∷ 6 ∷ 0 ∷ 7 ∷ 7 ∷ 6 ∷ 0 ∷ 0 ∷ 5 ∷ 5 ∷ 5 ∷ 4 ∷ 4 ∷ 4 ∷ 3 ∷ 3 ∷ 3 ∷ 2 ∷ 1 ∷ 0 ∷ 2 ∷ 2 ∷ 5 ∷ 6
    ∷ 0 ∷ 7 ∷ 7 ∷ 6 ∷ 6 ∷ 0 ∷ 7 ∷ 7 ∷ 0 ∷ 8 ∷ 8 ∷ 7 ∷ 7 ∷ 6 ∷ 0 ∷ 0 ∷ 5 ∷ 5 ∷ 5 ∷ 4 ∷ 4 ∷ 4 ∷ 3 ∷ 3
    ∷ 3 ∷ 2 ∷ 1 ∷ 0 ∷ 2 ∷ 2 ∷ 5 ∷ 5 ∷ 0 ∷ 6 ∷ 5 ∷ 5 ∷ []
depths Colon.byte_string_equals3 =
    4 ∷ 0 ∷ 5 ∷ 5 ∷ 0 ∷ 6 ∷ 6 ∷ 0 ∷ 7 ∷ 7 ∷ 0 ∷ 8 ∷ 5 ∷ 5 ∷ 5 ∷ 4 ∷ 4 ∷ 4 ∷ 3 ∷ 3 ∷ 3 ∷ 2 ∷ []
depths Colon.lookup =
    4 ∷ 5 ∷ 0 ∷ 0 ∷ 4 ∷ 4 ∷ 3 ∷ 3 ∷ 2 ∷ 2 ∷ 1 ∷ 0 ∷ 2 ∷ 2 ∷ 3 ∷ 3 ∷ 4 ∷ 5 ∷ 5 ∷ 5 ∷ 0 ∷ 6 ∷ 6 ∷ 0
    ∷ 7 ∷ 7 ∷ 5 ∷ 0 ∷ 0 ∷ 4 ∷ 4 ∷ 4 ∷ 3 ∷ 3 ∷ 3 ∷ 2 ∷ 0 ∷ 3 ∷ 3 ∷ 4 ∷ 4 ∷ 4 ∷ 4 ∷ 4 ∷ []
depths Colon.swap_places =
    3 ∷ 0 ∷ 4 ∷ 4 ∷ 4 ∷ 0 ∷ 5 ∷ 5 ∷ 5 ∷ 0 ∷ 6 ∷ 6 ∷ 4 ∷ 0 ∷ 5 ∷ 5 ∷ 3 ∷ 3 ∷ 2 ∷ 2 ∷ 1 ∷ []
depths Colon.reverse3 =
    2 ∷ 0 ∷ 3 ∷ 3 ∷ 0 ∷ 4 ∷ 4 ∷ 0 ∷ 5 ∷ 5 ∷ 4 ∷ 0 ∷ 5 ∷ 4 ∷ 5 ∷ 4 ∷ 3 ∷ 0 ∷ 4 ∷ 4 ∷ 0 ∷ 5 ∷ 5 ∷ 6
    ∷ 5 ∷ 4 ∷ 2 ∷ 2 ∷ 0 ∷ 3 ∷ 2 ∷ 2 ∷ 0 ∷ 3 ∷ 3 ∷ 0 ∷ 4 ∷ 3 ∷ 0 ∷ 4 ∷ 4 ∷ 3 ∷ 0 ∷ 0 ∷ 2 ∷ []
depths Colon.reverse = 3 ∷ 3 ∷ 0 ∷ 4 ∷ 4 ∷ 3 ∷ 2 ∷ 1 ∷ []
depths Colon.rbracket = 1 ∷ 0 ∷ 2 ∷ 3 ∷ 1 ∷ 2 ∷ 3 ∷ 2 ∷ 2 ∷ []
depths Colon.lbracket = 1 ∷ 0 ∷ 2 ∷ 3 ∷ 1 ∷ []
depths Colon.mem_used = 1 ∷ 2 ∷ 2 ∷ 3 ∷ 2 ∷ 2 ∷ []
depths Colon.mem_info = 1 ∷ 0 ∷ 2 ∷ 1 ∷ 2 ∷ 1 ∷ 0 ∷ 2 ∷ 1 ∷ 0 ∷ 2 ∷ 1 ∷ 2 ∷ 1 ∷ 0 ∷ 2 ∷ 1 ∷ []
depths _ = []
