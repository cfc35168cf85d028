-- ===== src/RingBuffer/Reach.antt =====
-- The states that the calls of a program bring a ring buffer to.
use north_arm.Prelude.{ℕ, ◌<◌, ◌≡◌, ◌∙◌, refl, length, arith}
use north_arm.RingBuffer.{RingBuffer, init, put, get}
use north_arm.RingBuffer.Valid.{
  IsValid, count, init-IsValid, put-IsValid, get-IsValid, size-put, size-get,
}
use north_arm.RingBuffer.Refine.{contents, length-from}

-- From ring_buffer_init on an array of `n` places, by calls of ring_buffer_put and ring_buffer_get.
pub data Reachable (places : ℕ → ℕ) (n : ℕ) : RingBuffer → Type 0 where
  starts : Reachable places n (init places n)
  puts : {rb : RingBuffer} (c : ℕ) → Reachable places n rb → Reachable places n (put rb c).1
  gets : {rb : RingBuffer} → Reachable places n rb → Reachable places n (get rb).1

-- At most `size - 1` characters wait.
length-contents : (rb : RingBuffer) → IsValid rb → length (contents rb) < rb.size
length-contents rb v = ground (arith, v, length-from rb.buffer rb.size rb.rpos (count rb))

Reachable-both :
    {places : ℕ → ℕ} {n : ℕ} {rb : RingBuffer}
    → 0 < n
    → Reachable places n rb
    → IsValid rb × (rb.size ≡ n)
unfolding init
Reachable-both {places} {n} h starts = (init-IsValid places n h, refl)
Reachable-both h (puts {rb} c r) =
    let (v, s) = Reachable-both h r in (put-IsValid c v, size-put rb c ∙ s)
Reachable-both h (gets {rb} r) = let (v, s) = Reachable-both h r in (get-IsValid v, size-get rb ∙ s)

-- After ring_buffer_init on an array of n > 0 places, and any calls of ring_buffer_put and
-- ring_buffer_get, both positions are inside the array, its size is n, and fewer than n
-- characters wait.
pub Reachable-IsValid :
    {places : ℕ → ℕ} {n : ℕ} {rb : RingBuffer}
    → 0 < n
    → Reachable places n rb
    → IsValid rb × (rb.size ≡ n) × (length (contents rb) < n)
Reachable-IsValid {rb = rb} h r =
    let (v, s) = Reachable-both h r in (v, s, omega (arith, s, length-contents rb v))
