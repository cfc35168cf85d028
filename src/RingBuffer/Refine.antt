-- ===== src/RingBuffer/Refine.antt =====
-- A valid ring buffer is the queue of the characters from `rpos` round to `wpos`.
use north_arm.Prelude.{
  ℕ, zero, suc, ◌+◌, ◌-◌, ◌<◌, ◌≡◌, refl, ap, ap₂, ◌∙◌, List, [], ◌∷◌, ◌++◌, arith, ltb, length,
  if◌then◌else◌,
}
use north_arm.RingBuffer.{RingBuffer, update, put, get, of_char}
use north_arm.RingBuffer.Queue
use north_arm.RingBuffer.Queue.{Call, Answer, stored, got}
use north_arm.RingBuffer.Valid.{
  IsValid, count, succ_mod, put-IsValid, get-IsValid, size-put, size-get,
}

-- The place after `i`.
abbrev after : ℕ → ℕ → ℕ
after size i = if ltb (1 + i) size then 1 + i else 0

-- `n` characters from place `i` on.
abbrev pub from : (ℕ → ℕ) → ℕ → ℕ → ℕ → List ℕ
from b size i zero = []
from b size i (suc n) = b i ∷ from b size (after size i) n

abbrev pub contents : RingBuffer → List ℕ
contents rb = from rb.buffer rb.size rb.rpos (count rb)

pub length-from : (b : ℕ → ℕ) (size i n : ℕ) → length (from b size i n) ≡ n
length-from b size i zero = refl
length-from b size i (suc n) = ap suc (length-from b size (after size i) n)

from_pos :
    (b : ℕ → ℕ) (size i n : ℕ) → 0 < n → from b size i n ≡ b i ∷ from b size (after size i) (n - 1)
from_pos b size i zero h = absurd (omega arith)
from_pos b size i (suc n) h = ap (λ k. from b size i (suc k)) (omega arith)

-- The place `n` steps after `i`.
abbrev ahead : ℕ → ℕ → ℕ → ℕ
ahead size i n = if ltb (i + n) size then i + n else i + n - size

-- A character written just past the window is its new last one.
from-update :
    (b : ℕ → ℕ) (size c i n j : ℕ)
    → i < size
    → n < size
    → j ≡ ahead size i n
    → from (update b j c) size i (suc n) ≡ from b size i n ++ (c ∷ [])
from-update b size c i zero j hi hn e = ground arith
from-update b size c i (suc n) j hi hn e =
    ap₂ ◌∷◌ (ground arith)
      (from-update b size c (after size i) n j (ground arith) (omega arith) (ground arith))

module _ {rb : RingBuffer} (v : IsValid rb) where
  -- The character joins the end of the queue, exactly when the queue is shorter than `size - 1`.
  pub put_refines :
      (c : ℕ)
      → let (answer, rb') = put rb c in
        let (spec, q) = Queue.step of_char (rb.size - 1) (Call.put c) (contents rb) in
        (stored answer ≡ spec) × (contents rb' ≡ q)
  unfolding put Queue.step
  put_refines c = ground (
    arith,
    v,
    succ_mod rb.wpos rb.size,
    length-from rb.buffer rb.size rb.rpos (count rb),
    from-update rb.buffer rb.size c rb.rpos (count rb) rb.wpos,
  )

  pub get_refines :
      let (answer, rb') = get rb in
      let (spec, q) = Queue.step of_char (rb.size - 1) Call.get (contents rb) in
      (got answer ≡ spec) × (contents rb' ≡ q)
  unfolding get Queue.step
  get_refines =
      ground (arith, v, succ_mod rb.rpos rb.size, from_pos rb.buffer rb.size rb.rpos (count rb))

-- A client's calls, and what each returns.
unfoldable pub run : RingBuffer → List Call → List Answer
run rb [] = []
run rb (Call.put c ∷ cs) = let (a, rb') = put rb c in stored a ∷ run rb' cs
run rb (Call.get ∷ cs) = let (a, rb') = get rb in got a ∷ run rb' cs

-- No sequence of calls of ring_buffer_put and ring_buffer_get tells a valid ring buffer from the
-- bounded queue of its contents, which holds at most size - 1 characters.
pub run_refines :
    (cs : List Call) {rb : RingBuffer}
    → IsValid rb
    → run rb cs ≡ Queue.run of_char (rb.size - 1) cs (contents rb)
unfolding run Queue.run
run_refines [] v = refl
run_refines (Call.put c ∷ cs) {rb} v = ap₂ ◌∷◌ (put_refines v c).0 (
    run_refines cs (put-IsValid c v)
    ∙ ap₂ (λ size q. Queue.run of_char (size - 1) cs q) (size-put rb c) (put_refines v c).1)
run_refines (Call.get ∷ cs) {rb} v = ap₂ ◌∷◌ (get_refines v).0 (
    run_refines cs (get-IsValid v)
    ∙ ap₂ (λ size q. Queue.run of_char (size - 1) cs q) (size-get rb) (get_refines v).1)
