-- ===== src/C5/Memory.antt =====
-- Access to memory through a pointer on the stack (misc/c/c5.c), and the two copying loops.
use north_arm.Prelude.{ℕ, zero, suc, ◌+◌, ◌-◌, ltb, ◌==◌, if◌then◌else◌}
use north_arm.Word64.{word_mod}
use north_arm.Machine.{
  M, pure, ◌>>=◌, ◌>>◌, load, store, load_byte, store_byte, raise, cell, set_cell,
}
use north_arm.C5.Data.{next_op}

unfoldable pub peek : M ℕ
unfolding next_op
peek = do p ← cell 0; v ← load p; set_cell 0 v; next_op

unfoldable pub poke : M ℕ
unfolding next_op
poke = do p ← cell 0; v ← cell 1; store p v; raise 2; next_op

-- `char` is signed, so a byte from 128 up becomes a negative number.
unfoldable pub sign_extend : ℕ → ℕ
sign_extend b = if ltb b 128 then b else b + (word_mod - 256)

unfoldable pub peek_byte : M ℕ
unfolding next_op sign_extend
peek_byte = do p ← cell 0; b ← load_byte p; set_cell 0 (sign_extend b); next_op

unfoldable pub poke_byte : M ℕ
unfolding next_op
poke_byte = do p ← cell 0; v ← cell 1; store_byte p v; raise 2; next_op

-- `left` is `count - i`.
unfoldable pub strncpy_loop : (out from left i : ℕ) → M ℕ
strncpy_loop out from zero i = store_byte (out + i) 0 >> pure i
strncpy_loop out from (suc left) i = load_byte (from + i) >>= λ b.
    if b == 0
    then (store_byte (out + i) 0 >> pure i)
    else (store_byte (out + i) b >> strncpy_loop out from left (i + 1))

unfoldable pub strncpy : (out from count : ℕ) → M ℕ
unfolding strncpy_loop
strncpy out from count = strncpy_loop out from count 0

unfoldable pub memcpy_loop : (out from left i : ℕ) → M ℕ
memcpy_loop out from zero i = pure i
memcpy_loop out from (suc left) i =
    load_byte (from + i) >>= λ b. store_byte (out + i) b >> memcpy_loop out from left (i + 1)

unfoldable pub memcpy : (out from count : ℕ) → M ℕ
unfolding memcpy_loop
memcpy out from count = memcpy_loop out from count 0
