-- ===== src/C5/Shuffle.antt =====
-- The stack shuffles of misc/c/c5.c. In the comments the top of the stack is on the right.
use north_arm.Prelude.{ℕ}
use north_arm.Machine.{M, ◌>>=◌, ◌>>◌, raise, lower, cell, set_cell}
use north_arm.C5.Data.{next_op}

unfoldable pub swap : M ℕ
unfolding next_op
swap = do t ← cell 0; b ← cell 1; set_cell 0 b; set_cell 1 t; next_op

unfoldable pub fdup : M ℕ
unfolding next_op
fdup = do v ← cell 0; lower 1; set_cell 0 v; next_op

unfoldable pub drop : M ℕ
unfolding next_op
drop = do raise 1; next_op

unfoldable pub over : M ℕ
unfolding next_op
over = do lower 1; v ← cell 2; set_cell 0 v; next_op

-- a b c -- c a b
unfoldable pub roll : M ℕ
unfolding next_op
roll = do t ← cell 0; b ← cell 1; set_cell 0 b; a ← cell 2; set_cell 1 a; set_cell 2 t; next_op

-- a b c -- b c a
unfoldable pub shift : M ℕ
unfolding next_op
shift = do t ← cell 0; a ← cell 2; set_cell 0 a; b ← cell 1; set_cell 2 b; set_cell 1 t; next_op

-- a b c -- c b a
unfoldable pub rot : M ℕ
unfolding next_op
rot = do t ← cell 0; a ← cell 2; set_cell 0 a; set_cell 2 t; next_op
