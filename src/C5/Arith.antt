-- ===== src/C5/Arith.antt =====
-- Arithmetic and comparison of misc/c/c5.c on the two cells on top of the stack.
-- A signed sum, difference or product that overflows wraps, as the compilers in use do it.
-- A zero divisor, the one quotient that overflows, and a shift by the width or more are faults.
use north_arm.Prelude.{ℕ, ◌-◌, ◌*◌, ◌/◌, ◌%◌, ◌^◌, Bool, ◌&&◌, ◌||◌, leb, ◌==◌, flag, if◌then◌else◌}
use north_arm.Prelude.Int.{quot, rem}
use north_arm.Word64.{word_mod, add64, sub64, mul64, to_ℤ, of_ℤ, slt, sle}
use north_arm.Machine.{M, fail, ◌>>=◌, ◌>>◌, raise, cell, set_cell}
use north_arm.C5.Data.{next_op}

unfoldable pub int_sub : M ℕ
unfolding next_op
int_sub = do a ← cell 0; raise 1; b ← cell 0; set_cell 0 (sub64 b a); next_op

unfoldable pub uint_sub : M ℕ
unfolding next_op
uint_sub = do a ← cell 0; raise 1; b ← cell 0; set_cell 0 (sub64 b a); next_op

unfoldable pub ptr_add : M ℕ
unfolding next_op
ptr_add = do a ← cell 0; raise 1; b ← cell 0; set_cell 0 (add64 b a); next_op

unfoldable pub ptr_sub : M ℕ
unfolding next_op
ptr_sub = do a ← cell 0; raise 1; b ← cell 0; set_cell 0 (sub64 b a); next_op

unfoldable pub int_add : M ℕ
unfolding next_op
int_add = do a ← cell 0; raise 1; b ← cell 0; set_cell 0 (add64 b a); next_op

unfoldable pub int_mul : M ℕ
unfolding next_op
int_mul = do a ← cell 0; raise 1; b ← cell 0; set_cell 0 (mul64 b a); next_op

-- The divisions that the processor traps.
unfoldable pub traps : ℕ → ℕ → Bool
traps b a = (a == 0) || (b == 2 ^ 63 && a == word_mod - 1)

unfoldable pub int_div : M ℕ
unfolding next_op traps quot
int_div = do
  a ← cell 0
  raise 1
  b ← cell 0
  if traps b a then fail else set_cell 0 (of_ℤ (quot (to_ℤ b) (to_ℤ a)))
  next_op

unfoldable pub int_mod : M ℕ
unfolding next_op traps rem
int_mod = do
  a ← cell 0
  raise 1
  b ← cell 0
  if traps b a then fail else set_cell 0 (of_ℤ (rem (to_ℤ b) (to_ℤ a)))
  next_op

unfoldable pub bsl : M ℕ
unfolding next_op
bsl = do
  c ← cell 0
  raise 1
  x ← cell 0
  if leb 64 c then fail else set_cell 0 (x * 2 ^ c % word_mod)
  next_op

unfoldable pub bsr : M ℕ
unfolding next_op
bsr = do c ← cell 0; raise 1; x ← cell 0; if leb 64 c then fail else set_cell 0 (x / 2 ^ c); next_op

unfoldable pub int_lte : M ℕ
unfolding next_op
int_lte = do a ← cell 0; raise 1; b ← cell 0; set_cell 0 (flag (sle b a)); next_op

unfoldable pub int_lt : M ℕ
unfolding next_op
int_lt = do a ← cell 0; raise 1; b ← cell 0; set_cell 0 (flag (slt b a)); next_op

unfoldable pub equals : M ℕ
unfolding next_op
equals = do a ← cell 0; raise 1; b ← cell 0; set_cell 0 (flag (b == a)); next_op
