-- ===== src/RingBuffer/Valid.antt =====
-- The representation invariant of a ring buffer.
use north_arm.Prelude.{ℕ, ◌+◌, ◌-◌, ◌%◌, ◌<◌, ◌≡◌, ltb, leb, arith, if◌then◌else◌}
use north_arm.RingBuffer.{RingBuffer, init, put, get}

pub record IsValid (rb : RingBuffer) : Type 0 where
  pub rpos_in : rb.rpos < rb.size
  pub wpos_in : rb.wpos < rb.size

-- How many characters are waiting.
abbrev pub count : RingBuffer → ℕ
count rb = if leb rb.rpos rb.wpos then rb.wpos - rb.rpos else rb.wpos + rb.size - rb.rpos

pub succ_mod : (i n : ℕ) → i < n → (1 + i) % n ≡ (if ltb (1 + i) n then 1 + i else 0)
succ_mod i n h = grind arith

pub init-IsValid : (b : ℕ → ℕ) (n : ℕ) → 0 < n → IsValid (init b n)
unfolding init
init-IsValid b n h = ground arith

-- ring_buffer_put keeps both positions of a valid ring buffer inside it.
pub put-IsValid : {rb : RingBuffer} (c : ℕ) → IsValid rb → IsValid (put rb c).1
unfolding put
put-IsValid {rb} c v = ground (arith, succ_mod rb.wpos rb.size)

-- ring_buffer_get keeps both positions of a valid ring buffer inside it.
pub get-IsValid : {rb : RingBuffer} → IsValid rb → IsValid (get rb).1
unfolding get
get-IsValid {rb} v = ground (arith, succ_mod rb.rpos rb.size)

pub size-put : (rb : RingBuffer) (c : ℕ) → (put rb c).1.size ≡ rb.size
unfolding put
size-put rb c = ground arith

pub size-get : (rb : RingBuffer) → (get rb).1.size ≡ rb.size
unfolding get
size-get rb = ground arith
