-- ===== src/Avr/Uart/Full.antt =====
-- The interrupt handler of misc/c/avr.h: what it stores, and when it asks the sender to pause.
use north_arm.Prelude.{ℕ, ◌<◌, ◌≤◌, ◌≡◌, [], ◌∷◌, ◌++◌, ltb, length, arith, if◌then◌else◌}
use north_arm.RingBuffer.{RingBuffer}
use north_arm.RingBuffer.Valid.{IsValid, count, put-IsValid, size-put}
use north_arm.RingBuffer.Refine.{contents, put_refines}
use north_arm.RingBuffer.Queue
use north_arm.Avr.Uart.{Port, uart_buffer_size, uart_rx_full, receive}

-- For a valid buffer of 32 places, uart_rx_full holds exactly if more than 16 characters wait
-- while wpos is at or past rpos, and exactly if fewer than 16 wait once wpos is behind rpos.
pub uart_rx_full_lem :
    (rb : RingBuffer)
    → IsValid rb
    → rb.size ≡ uart_buffer_size
    → (rb.rpos ≤ rb.wpos → uart_rx_full rb ≡ ltb 16 (count rb))
      × (rb.wpos < rb.rpos → uart_rx_full rb ≡ ltb (count rb) 16)
unfolding uart_rx_full
uart_rx_full_lem rb v e = (λ h. ground arith, λ h. ground arith)

-- A port as avr.h sets it up, with a valid buffer.
pub record IsReady (p : Port) : Type 0 where
  pub valid : IsValid p.rx
  pub sized : p.rx.size ≡ uart_buffer_size

pub receive-IsReady : {p : Port} (c : ℕ) → IsReady p → IsReady (receive c p)
unfolding receive
receive-IsReady {p} c r = ground (arith, put-IsValid c r.valid, size-put p.rx c)

-- In a ready port with fewer than 31 characters waiting, the receive interrupt appends the new
-- one and sends XOFF if uart_rx_full then holds; with 31 waiting the new one is lost and XOFF is
-- sent.
pub receive_lem :
    {p : Port} (c : ℕ)
    → IsReady p
    → let p' = receive c p in
      if ltb (length (contents p.rx)) 31
      then (contents p'.rx ≡ contents p.rx ++ (c ∷ []))
        × (p'.sent ≡ (if uart_rx_full p'.rx then p.sent ++ (19 ∷ []) else p.sent))
      else (contents p'.rx ≡ contents p.rx) × (p'.sent ≡ p.sent ++ (19 ∷ []))
unfolding receive Queue.step
receive_lem {p} c r = ground (arith, put_refines r.valid c)
