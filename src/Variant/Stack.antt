-- ===== src/Variant/Stack.antt =====
-- The words of misc/c/c4.c for the stack and for arithmetic.
use north_arm.Prelude.{◌==◌, flag, if◌then◌else◌}
use north_arm.Prelude.Int.{quot, rem}
use north_arm.Word64.{add64, sub64, mul64, to_ℤ, of_ℤ, slt, sle}
use north_arm.Machine.{M, pure, fail, ◌>>=◌, ◌>>◌, raise, lower, cell, set_cell}
use north_arm.C5.Arith.{traps}
use north_arm.Variant.Signal.{Signal, go}

unfoldable pub swap : M Signal
swap = do t ← cell 0; b ← cell 1; set_cell 0 b; set_cell 1 t; pure go

unfoldable pub fdup : M Signal
fdup = do v ← cell 0; lower 1; set_cell 0 v; pure go

unfoldable pub drop : M Signal
drop = do raise 1; pure go

unfoldable pub roll : M Signal
roll = do t ← cell 0; b ← cell 1; set_cell 0 b; a ← cell 2; set_cell 1 a; set_cell 2 t; pure go

unfoldable pub shift : M Signal
shift = do t ← cell 0; a ← cell 2; set_cell 0 a; b ← cell 1; set_cell 2 b; set_cell 1 t; pure go

unfoldable pub rot : M Signal
rot = do t ← cell 0; a ← cell 2; set_cell 0 a; set_cell 2 t; pure go

unfoldable pub int_sub : M Signal
int_sub = do a ← cell 0; raise 1; b ← cell 0; set_cell 0 (sub64 b a); pure go

unfoldable pub uint_sub : M Signal
uint_sub = do a ← cell 0; raise 1; b ← cell 0; set_cell 0 (sub64 b a); pure go

unfoldable pub ptr_add : M Signal
ptr_add = do a ← cell 0; raise 1; b ← cell 0; set_cell 0 (add64 b a); pure go

unfoldable pub ptr_sub : M Signal
ptr_sub = do a ← cell 0; raise 1; b ← cell 0; set_cell 0 (sub64 b a); pure go

unfoldable pub int_add : M Signal
int_add = do a ← cell 0; raise 1; b ← cell 0; set_cell 0 (add64 b a); pure go

unfoldable pub int_mul : M Signal
int_mul = do a ← cell 0; raise 1; b ← cell 0; set_cell 0 (mul64 b a); pure go

unfoldable pub int_div : M Signal
unfolding traps quot
int_div = do
  a ← cell 0
  raise 1
  b ← cell 0
  if traps b a then fail else set_cell 0 (of_ℤ (quot (to_ℤ b) (to_ℤ a)))
  pure go

unfoldable pub int_mod : M Signal
unfolding traps rem
int_mod = do
  a ← cell 0
  raise 1
  b ← cell 0
  if traps b a then fail else set_cell 0 (of_ℤ (rem (to_ℤ b) (to_ℤ a)))
  pure go

unfoldable pub int_lte : M Signal
int_lte = do a ← cell 0; raise 1; b ← cell 0; set_cell 0 (flag (sle b a)); pure go

unfoldable pub int_lt : M Signal
int_lt = do a ← cell 0; raise 1; b ← cell 0; set_cell 0 (flag (slt b a)); pure go

unfoldable pub equals : M Signal
equals = do a ← cell 0; raise 1; b ← cell 0; set_cell 0 (flag (b == a)); pure go
