-- ===== src/RingBuffer.antt =====
-- The ring buffer of misc/c/ringbuffer.c and ringbuffer.h. One place stays free, so a buffer of
-- `size` places holds `size - 1` characters.
pub mod Queue
pub mod Valid
pub mod Refine
pub mod Reach
mod Tests
use north_arm.Prelude.{ℕ, ◌+◌, ◌-◌, ◌%◌, Bool, not, ltb, ◌==◌, flag, if◌then◌else◌}
use north_arm.Prelude.Int.{ℤ, pos, negsuc}

-- The array is a function of the index; `Valid` shows that every index used is below `size`.
pub record RingBuffer : Type 0 where
  pub buffer : ℕ → ℕ
  pub size : ℕ
  pub rpos : ℕ
  pub wpos : ℕ

abbrev pub update : (ℕ → ℕ) → ℕ → ℕ → ℕ → ℕ
update f i v j = if i == j then v else f j

unfoldable pub init : (ℕ → ℕ) → ℕ → RingBuffer
init buffer size = record { buffer = buffer; size = size; rpos = 0; wpos = 0 }

-- The result is the C function's, beside the buffer that it leaves.
unfoldable pub put : RingBuffer → ℕ → ℕ × RingBuffer
put rb c =
    let n = (1 + rb.wpos) % rb.size in
    if n == rb.rpos
    then (0, rb)
    else (flag (not (n == rb.rpos)), record rb { buffer = update rb.buffer rb.wpos c; wpos = n })

-- `int c = rb->buffer[i]`: a `char` is signed, so the value of a byte from 128 up is negative.
abbrev pub of_char : ℕ → ℤ
of_char b = if ltb b 128 then pos b else negsuc (255 - b)

unfoldable pub get : RingBuffer → ℤ × RingBuffer
get rb =
    if rb.rpos == rb.wpos
    then (negsuc 0, rb)
    else (of_char (rb.buffer rb.rpos), record rb { rpos = (1 + rb.rpos) % rb.size })
