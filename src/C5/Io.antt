-- ===== src/C5/Io.antt =====
-- The words of misc/c/c5.c that read and write. cread and cwrite use the read and write of
-- misc/c/unix_io.h.
use north_arm.Prelude.{ℕ, zero, suc, ◌+◌, ◌%◌, ◌^◌, List, [], ◌∷◌, ltb, ◌==◌, if◌then◌else◌}
use north_arm.Word64.{to_ℤ}
use north_arm.Machine.{
  M, bytes, int, uint, hex, flushed, exited, timeout, pure, fail, ◌>>=◌, ◌>>◌, load_byte, raise,
  cell, set_cell, put,
}
use north_arm.UnixIo.{read, write}
use north_arm.C5.Data.{next_op}

-- The bytes of a C string, at most `fuel` of them.
unfoldable pub c_string : (fuel at : ℕ) → M (List ℕ)
c_string zero at = λ _. timeout
c_string (suc fuel) at = do
  b ← load_byte at
  if b == 0 then pure [] else (do rest ← c_string fuel (at + 1); pure (b ∷ rest))

unfoldable pub cputs : ℕ → M ℕ
unfolding next_op c_string
cputs fuel = do
  p ← cell 0
  s ← c_string fuel p
  put (bytes s)
  put (bytes (b'\r' ∷ b'\n' ∷ []))
  raise 1
  next_op

unfoldable pub write_string : ℕ → M ℕ
unfolding next_op c_string
write_string fuel = do p ← cell 0; s ← c_string fuel p; put (bytes s); raise 1; next_op

-- `int fd = i` keeps the low 32 bits; a negative `fd` passes the test and indexes out of bounds.
unfoldable pub flush : M ℕ
unfolding next_op
flush = do
  i ← cell 0
  let fd = i % 2 ^ 32
  if ltb fd 3 then put (flushed fd) else (if ltb fd (2 ^ 31) then pure tt else fail)
  raise 1
  next_op

unfoldable pub cexit : M ℕ
cexit = do n ← cell 0; exited (n % 2 ^ 32)

unfoldable pub write_int : M ℕ
unfolding next_op
write_int = do n ← cell 0; put (int (to_ℤ n)); put (flushed 1); raise 1; next_op

unfoldable pub write_uint : M ℕ
unfolding next_op
write_uint = do n ← cell 0; put (uint n); put (flushed 1); raise 1; next_op

unfoldable pub write_hex_int : M ℕ
unfolding next_op
write_hex_int = do n ← cell 0; put (hex n); put (flushed 1); raise 1; next_op

unfoldable pub cread : M ℕ
unfolding next_op read
cread = do
  fd ← cell 0
  raise 1
  p ← cell 0
  raise 1
  len ← cell 0
  n ← read p len
  set_cell 0 n
  next_op

unfoldable pub cwrite : M ℕ
unfolding next_op write
cwrite = do
  fd ← cell 0
  raise 1
  p ← cell 0
  raise 1
  len ← cell 0
  n ← write p len
  set_cell 0 n
  next_op
