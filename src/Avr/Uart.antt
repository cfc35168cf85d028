-- ===== src/Avr/Uart.antt =====
-- The interrupt handler and the reader of misc/c/avr.h.
pub mod Full
pub mod Wait
mod Tests
use north_arm.Prelude.{
  ℕ, ◌+◌, ◌-◌, ◌/◌, List, [], ◌∷◌, ◌++◌, Bool, ◌||◌, ◌≡◌, Option, none, some, ltb, leb, ◌==◌,
  if◌then◌else◌,
}
use north_arm.Prelude.Int.{ℤ, pos, negsuc}
use north_arm.RingBuffer
use north_arm.RingBuffer.{RingBuffer}

abbrev pub uart_buffer_size : ℕ
uart_buffer_size = 32

-- The receive buffer, and the characters sent on the line.
pub record Port : Type 0 where
  pub rx : RingBuffer
  pub sent : List ℕ

-- RING_BUFFER(uart_rx_buffer, UART_BUFFER_SIZE)
abbrev pub reset : (ℕ → ℕ) → Port
reset places = record {
  rx = record { buffer = places; size = uart_buffer_size; rpos = 0; wpos = 0 };
  sent = [];
}

unfoldable pub xputchar : ℕ → Port → Port
xputchar c p = record p { sent = p.sent ++ (c ∷ []) }

unfoldable pub xoff : Port → Port
unfolding xputchar
xoff p = xputchar 19 p

unfoldable pub xon : Port → Port
unfolding xputchar
xon p = xputchar 17 p

-- `abs(rpos - wpos) > UART_BUFFER_SIZE / 2`
unfoldable pub uart_rx_full : RingBuffer → Bool
uart_rx_full rb =
    ltb (uart_buffer_size / 2)
      (if leb rb.wpos rb.rpos then rb.rpos - rb.wpos else rb.wpos - rb.rpos)

-- ISR(USART_RX_vect), when the character `c` has arrived.
unfoldable pub receive : ℕ → Port → Port
unfolding uart_rx_full xoff
receive c p =
    let (stored, rx) = RingBuffer.put p.rx c in
    let p' = record p { rx = rx } in if (stored == 0) || uart_rx_full rx then xoff p' else p'

-- A negative result of ring_buffer_get.
abbrev pub negative : ℤ → Bool
negative (pos n) = Bool.false
negative (negsuc n) = Bool.true

-- `ring_buffer_get` on the port's buffer.
unfoldable pub take : Port → ℤ × Port
take p = let (c, rx) = RingBuffer.get p.rx in (c, record p { rx = rx })

-- The receive interrupt for each of the characters.
unfoldable pub arrive : List ℕ → Port → Port
unfolding receive
arrive [] p = p
arrive (c ∷ cs) p = arrive cs (receive c p)

-- The loop of uart_rb_getchar. Each list has the characters that arrive while one round waits, none
-- or any number. The result has the rounds that are not used; `none`: the loop is still waiting
-- after all of them.
unfoldable pub spin : List (List ℕ) → Port → Option ℤ × List (List ℕ) × Port
unfolding arrive
spin [] p = let (c, p') = take p in if negative c then (none, [], p') else (some c, [], p')
spin (arrivals ∷ more) p =
    let (c, p') = take p in
    let waiting = spin more (arrive arrivals p') in
    if negative c then waiting else (some c, arrivals ∷ more, p')

-- Of the characters for its loop, the first list arrives while it sends XON.
unfoldable pub wait_on : List (List ℕ) → Port → Option ℤ × List (List ℕ) × Port
unfolding arrive spin
wait_on [] p = spin [] (xon p)
wait_on (arrivals ∷ more) p = spin more (arrive arrivals (xon p))

unfoldable pub uart_rb_getchar : List (List ℕ) → Port → Option ℤ × List (List ℕ) × Port
unfolding wait_on
uart_rb_getchar rounds p =
    let (c, p') = take p in
    let waited = wait_on rounds p' in if negative c then waited else (some c, rounds, p')
