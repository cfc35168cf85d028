-- ===== src/Variant/Io.antt =====
-- The words of misc/c/c4.c that read and write, and its read and write for NOUNIX.
use north_arm.Prelude.{ℕ, zero, suc, ◌+◌, ◌%◌, ◌^◌, none, some, [], ◌∷◌, ◌++◌, ltb, if◌then◌else◌}
use north_arm.Word64.{to_ℤ}
use north_arm.Machine.{
  M, bytes, int, uint, hex, flushed, exited, pure, fail, ◌>>=◌, ◌>>◌, load_byte, store_byte, raise,
  cell, set_cell, put,
}
use north_arm.UnixIo.{getchar, putchar}
use north_arm.C5.Io.{c_string}
use north_arm.Variant.Signal.{Signal, go}

-- For lengths below 2^31, where `int i` does not overflow. `rounds` is `length - i`. A character is stored even at the end of the input, as byte 255.
unfoldable pub read_loop : (data_at rounds i : ℕ) → M ℕ
unfolding getchar
read_loop data_at zero i = pure i
read_loop data_at (suc rounds) i = getchar >>= λ r.
    elim r [ none ↦ store_byte (data_at + i) 255 | some c ↦ store_byte (data_at + i) c ]
    >> read_loop data_at rounds (i + 1)

unfoldable pub read : (data_at len : ℕ) → M ℕ
unfolding read_loop
read data_at len = read_loop data_at len 0

unfoldable pub write_loop : (data_at rounds i : ℕ) → M ℕ
unfolding putchar
write_loop data_at zero i = pure i
write_loop data_at (suc rounds) i =
    load_byte (data_at + i) >>= λ b. putchar b >>= λ ok. write_loop data_at rounds (i + 1)

unfoldable pub write : (data_at len : ℕ) → M ℕ
unfolding write_loop
write data_at len = write_loop data_at len 0

unfoldable pub write_string : ℕ → M Signal
unfolding c_string
write_string fuel = do p ← cell 0; s ← c_string fuel p; put (bytes s); raise 1; pure go

unfoldable pub flush : M Signal
flush = do
  i ← cell 0
  let fd = i % 2 ^ 32
  if ltb fd 3 then put (flushed fd) else (if ltb fd (2 ^ 31) then pure tt else fail)
  raise 1
  pure go

unfoldable pub write_int : M Signal
write_int = do n ← cell 0; put (int (to_ℤ n)); put (flushed 1); raise 1; pure go

unfoldable pub write_uint : M Signal
write_uint = do n ← cell 0; put (uint n); put (flushed 1); raise 1; pure go

unfoldable pub write_hex_int : M Signal
write_hex_int = do n ← cell 0; put (hex n); put (flushed 1); raise 1; pure go

unfoldable pub cread : M Signal
unfolding read
cread = do
  fd ← cell 0
  raise 1
  p ← cell 0
  raise 1
  len ← cell 0
  n ← read p len
  set_cell 0 n
  pure go

unfoldable pub cwrite : M Signal
unfolding write
cwrite = do
  fd ← cell 0
  raise 1
  p ← cell 0
  raise 1
  len ← cell 0
  n ← write p len
  set_cell 0 n
  pure go

-- puts ends the line.
unfoldable pub cputs : ℕ → M Signal
unfolding c_string
cputs fuel = do p ← cell 0; s ← c_string fuel p; put (bytes (s ++ (b'\n' ∷ []))); raise 1; pure go

unfoldable pub cexit : M Signal
cexit = do n ← cell 0; exited (n % 2 ^ 32)
