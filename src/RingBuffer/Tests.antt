-- ===== src/RingBuffer/Tests.antt =====
-- Runs of the ring buffer: it fills up, empties, and wraps round.
use north_arm.Prelude.{ℕ, ◌<◌, length, ◌≡◌, List, [], ◌∷◌, arith, refl}
use north_arm.Prelude.Int.{pos, negsuc}
use north_arm.RingBuffer.{RingBuffer, init, put, get, of_char}
use north_arm.RingBuffer.Queue
use north_arm.RingBuffer.Queue.{Call, Answer, stored, got}
use north_arm.RingBuffer.Valid.{IsValid, init-IsValid}
use north_arm.RingBuffer.Refine.{run, run_refines, contents}
use north_arm.RingBuffer.Reach.{starts, puts, gets, Reachable-IsValid}

abbrev zeros : ℕ → ℕ
zeros i = 0

abbrev calls : List Call
calls =
    Call.put 65
    ∷ Call.put 200
    ∷ Call.put 67
    ∷ Call.put 68
    ∷ Call.get
    ∷ Call.get
    ∷ Call.put 69
    ∷ Call.get
    ∷ Call.get
    ∷ Call.get
    ∷ []

abbrev fresh : RingBuffer
unfolding init
fresh = init zeros 4

fresh-IsValid : IsValid fresh
unfolding init
fresh-IsValid = init-IsValid zeros 4 (omega arith)

run-fresh :
    run fresh calls
    ≡ stored 1
      ∷ stored 1
      ∷ stored 1
      ∷ stored 0
      ∷ got (pos 65)
      ∷ got (negsuc 55)
      ∷ stored 1
      ∷ got (pos 67)
      ∷ got (pos 69)
      ∷ got (negsuc 0)
      ∷ []
unfolding run put get init
run-fresh = refl

run_refines_example : run fresh calls ≡ Queue.run of_char 3 calls []
unfolding init
run_refines_example = run_refines calls fresh-IsValid

Reachable-IsValid_example :
    let rb = (get (put fresh 65).1).1 in IsValid rb × (rb.size ≡ 4) × (length (contents rb) < 4)
unfolding init
Reachable-IsValid_example = Reachable-IsValid (omega arith) (gets (puts 65 starts))
