-- ===== src/UnixIo.antt =====
-- read and write of misc/c/unix_io.h, the versions for a host without unistd (NOUNIX).
-- getchar and putchar act on the machine's input and output; `none` is a negative result.
pub mod Lines
mod Tests
use north_arm.Prelude.{
  ℕ, zero, suc, ◌+◌, ◌-◌, ◌%◌, ◌^◌, ltb, ◌++◌, Bool, true, false, Option, none, some, List, [], ◌∷◌,
  ◌==◌, if◌then◌else◌,
}
use north_arm.Word64.{word_mod}
use north_arm.Machine.{Machine, bytes, M, Result, done, pure, ◌>>=◌, ◌>>◌, load_byte, store_byte}

abbrev pub minus_one : ℕ
minus_one = word_mod - 1

-- `return i` makes an `int` of a size_t, and the cell of the caller takes its 64-bit pattern.
unfoldable pub to_int : ℕ → ℕ
to_int i = let n = i % 2 ^ 32 in if ltb n (2 ^ 31) then n else n + (word_mod - 2 ^ 32)

unfoldable pub take_input : List ℕ → Machine → Result (Option ℕ)
take_input [] m = done none m
take_input (c ∷ rest) m = done (some c) (record m { input = rest })

unfoldable pub getchar : M (Option ℕ)
unfolding take_input
getchar m = take_input m.input m

-- `rounds` is `length - i`, so the test `i < length` is its pattern.
unfoldable pub read_loop : (data_at rounds i c : ℕ) → M ℕ
unfolding to_int
read_loop data_at zero i c = pure (to_int i)
read_loop data_at (suc rounds) i c =
    if c == b'\n'
    then pure (to_int i)
    else getchar >>= λ r. elim r [
      | none ↦ if i == 0 then pure minus_one else pure (to_int i)
      | some ch ↦ store_byte (data_at + i) ch >> read_loop data_at rounds (i + 1) ch
    ]

unfoldable pub read : (data_at len : ℕ) → M ℕ
unfolding read_loop getchar
read data_at len = read_loop data_at len 0 0

unfoldable pub putchar : ℕ → M Bool
putchar b m =
    if m.stdout_ok
    then done true (record m { output = m.output ++ (bytes (b ∷ []) ∷ []) })
    else done false m

unfoldable pub write_loop : (data_at rounds i : ℕ) → M ℕ
unfolding putchar to_int
write_loop data_at zero i = pure (to_int i)
write_loop data_at (suc rounds) i = load_byte (data_at + i) >>= λ b.
    putchar b >>= λ ok. if ok then write_loop data_at rounds (i + 1) else pure (to_int i)

unfoldable pub write : (data_at len : ℕ) → M ℕ
unfolding write_loop
write data_at len = write_loop data_at len 0
