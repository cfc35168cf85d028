-- ===== src/Avr/Uart/Tests.antt =====
-- Runs of the port's handler and reader.
use north_arm.Prelude.{ℕ, List, ◌+◌, ◌++◌, ◌≡◌, ◌≤◌, ◌<◌, ltb, refl, [], ◌∷◌, arith, if◌then◌else◌}
use north_arm.RingBuffer.{RingBuffer}
use north_arm.RingBuffer.Valid.{IsValid}
use north_arm.RingBuffer.Refine.{contents}
use north_arm.Avr.Uart.{Port, receive, uart_rx_full, uart_rb_getchar}
use north_arm.Avr.Uart.Full.{IsReady, receive_lem, uart_rx_full_lem}
use north_arm.Avr.Uart.Wait.{skim, Returned, quiet, uart_rb_getchar_lem}

-- Characters 200 and 65 wait at the end of the array and at its start.
abbrev places : ℕ → ℕ
places i = if ltb 30 i then 200 else 65

abbrev wrapped : RingBuffer
wrapped = record { buffer = places; size = 32; rpos = 31; wpos = 1 }

abbrev port : Port
port = record { rx = wrapped; sent = [] }

wrapped-IsValid : IsValid wrapped
wrapped-IsValid = record { rpos_in = omega arith; wpos_in = omega arith }

port-IsReady : IsReady port
port-IsReady = record { valid = wrapped-IsValid; sized = refl }

uart_rx_full_lem_example :
    (31 ≤ 1 → uart_rx_full wrapped ≡ ltb 16 2) × (1 < 31 → uart_rx_full wrapped ≡ ltb 2 16)
uart_rx_full_lem_example = uart_rx_full_lem wrapped wrapped-IsValid refl

receive_lem_example :
    let p' = receive 66 port in
    (contents p'.rx ≡ 200 ∷ 65 ∷ 66 ∷ []) × (p'.sent ≡ (if uart_rx_full p'.rx then 19 ∷ [] else []))
receive_lem_example = receive_lem 66 port-IsReady

-- Two characters from 128 up wait, and 7 and 8 arrive in the second and the third round.
abbrev high : Port
high = record { rx = record wrapped { buffer = λ i. 200 + i }; sent = [] }

abbrev rounds : List (List ℕ)
rounds = [] ∷ (7 ∷ []) ∷ (8 ∷ []) ∷ []

uart_rb_getchar_lem_example : Returned 7 (8 ∷ []) (uart_rb_getchar (rounds ++ quiet 33) high)
unfolding skim
uart_rb_getchar_lem_example =
    uart_rb_getchar_lem rounds 33 high 7 (8 ∷ [])
      (record { valid = record { rpos_in = omega arith; wpos_in = omega arith }; sized = refl })
      (omega arith, (omega arith, (omega arith, tt))) (omega arith) refl
