-- ===== src/Interp/Arrays.antt =====
-- The words of misc/c/c4-interp.c for cells on the stack and in memory.
use north_arm.Prelude.{List, [], ◌∷◌}
use north_arm.C5.Op.{Op}
use north_arm.Interp.Item.{Item, Colon, Const, constant, neg, num, op, word}

unfoldable pub pick : List Item
pick =
    op Op.swap
    ∷ op Op.literal
    ∷ num 2
    ∷ op Op.int_add
    ∷ constant Const.cell_size
    ∷ op Op.int_mul
    ∷ op Op.here
    ∷ op Op.int_add
    ∷ op Op.peek
    ∷ op Op.swap
    ∷ op Op.return0
    ∷ []

unfoldable pub swap_places : List Item
swap_places =
    op Op.literal
    ∷ num 2
    ∷ word Colon.pick
    ∷ op Op.peek
    ∷ op Op.literal
    ∷ num 2
    ∷ word Colon.pick
    ∷ op Op.peek
    ∷ op Op.literal
    ∷ num 4
    ∷ word Colon.pick
    ∷ op Op.poke
    ∷ op Op.literal
    ∷ num 2
    ∷ word Colon.pick
    ∷ op Op.poke
    ∷ op Op.swap
    ∷ op Op.drop
    ∷ op Op.swap
    ∷ op Op.drop
    ∷ op Op.return0
    ∷ []

unfoldable pub reverse3 : List Item
reverse3 =
    op Op.literal
    ∷ num 3
    ∷ word Colon.pick
    ∷ op Op.literal
    ∷ num 3
    ∷ word Colon.pick
    ∷ op Op.literal
    ∷ num 3
    ∷ word Colon.pick
    ∷ op Op.int_sub
    ∷ op Op.literal
    ∷ num 1
    ∷ op Op.int_sub
    ∷ constant Const.cell_size
    ∷ op Op.int_mul
    ∷ op Op.int_add
    ∷ op Op.literal
    ∷ num 4
    ∷ word Colon.pick
    ∷ op Op.literal
    ∷ num 3
    ∷ word Colon.pick
    ∷ constant Const.cell_size
    ∷ op Op.int_mul
    ∷ op Op.int_add
    ∷ word Colon.swap_places
    ∷ op Op.swap
    ∷ op Op.literal
    ∷ num 1
    ∷ op Op.int_add
    ∷ op Op.swap
    ∷ op Op.literal
    ∷ num 1
    ∷ word Colon.pick
    ∷ op Op.literal
    ∷ num 2
    ∷ op Op.int_mul
    ∷ op Op.literal
    ∷ num 3
    ∷ word Colon.pick
    ∷ op Op.int_lt
    ∷ op Op.literal
    ∷ neg 44
    ∷ op Op.ifjump
    ∷ op Op.return0
    ∷ []

unfoldable pub reverse : List Item
reverse =
    op Op.roll
    ∷ op Op.literal
    ∷ num 0
    ∷ word Colon.reverse3
    ∷ op Op.drop
    ∷ op Op.drop
    ∷ op Op.drop
    ∷ op Op.return0
    ∷ []

unfoldable pub nseq : List Item
nseq =
    op Op.literal
    ∷ num 0
    ∷ op Op.roll
    ∷ op Op.swap
    ∷ op Op.literal
    ∷ num 1
    ∷ op Op.int_sub
    ∷ op Op.swap
    ∷ op Op.over
    ∷ op Op.literal
    ∷ num 3
    ∷ op Op.ifjump
    ∷ op Op.swap
    ∷ op Op.drop
    ∷ op Op.return0
    ∷ op Op.literal
    ∷ num 2
    ∷ word Colon.pick
    ∷ op Op.literal
    ∷ num 1
    ∷ op Op.int_add
    ∷ op Op.roll
    ∷ op Op.literal
    ∷ neg 22
    ∷ op Op.jumprel
    ∷ []
