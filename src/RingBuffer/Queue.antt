-- ===== src/RingBuffer/Queue.antt =====
-- What a client sees of a ring buffer: a first-in first-out queue of bounded length.
use north_arm.Prelude.{ℕ, List, [], ◌∷◌, ◌++◌, ltb, length, if◌then◌else◌}
use north_arm.Prelude.Int.{ℤ, negsuc}

pub data Call : Type 0 where
  put : ℕ → Call
  get : Call

-- What a call returns.
pub data Answer : Type 0 where
  stored : ℕ → Answer
  got : ℤ → Answer

-- `value` is what a stored character is read as.
module _ (value : ℕ → ℤ) (capacity : ℕ) where
  unfoldable pub step : Call → List ℕ → Answer × List ℕ
  step (put c) q = if ltb (length q) capacity then (stored 1, q ++ (c ∷ [])) else (stored 0, q)
  step get [] = (got (negsuc 0), [])
  step get (c ∷ q) = (got (value c), q)

  unfoldable pub run : List Call → List ℕ → List Answer
  run [] q = []
  run (c ∷ cs) q = let (a, q') = step c q in a ∷ run cs q'
