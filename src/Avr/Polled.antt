-- ===== src/Avr/Polled.antt =====
-- xgetchar and xputchar of misc/c/avr.h, which wait for a bit of the status register UCSR0A.
use mathlib.Core.List.{append_assoc, append-nil}
use north_arm.Prelude.{
  ℕ, zero, suc, ◌≡◌, ◌∙◌, refl, ap, sym, Option, none, some, List, [], ◌∷◌, ◌++◌, map, length, ◌≤◌,
  arith, if◌then◌else◌, inl, inr, Bool-cases,
}
use north_arm.Prelude.Int.{ℤ}
use north_arm.RingBuffer.{of_char}
use north_arm.Avr.Bits.{bit}
use north_arm.Avr.Device.{Device}

-- What one test of the status finds in UCSR0A, and UDR0 holds then.
pub record Poll : Type 0 where
  pub status : ℕ
  pub received : ℕ

-- `loop_until_bit_is_set` of <avr/io.h>: the first test that finds the bit, and the tests after it;
-- `none`: it still waits.
unfoldable pub wait : ℕ → List Poll → Option (Poll × List Poll)
unfolding bit
wait k [] = none
wait k (p ∷ polls) = let later = wait k polls in if bit p.status k then some (p, polls) else later

-- `c = UDR0` once the bit is set.
abbrev pub received_at : Option (Poll × List Poll) → Option (ℤ × List Poll)
received_at none = none
received_at (some (p, polls)) = some (of_char p.received, polls)

-- `UDR0 = c` once the bit is set.
abbrev pub sent_at : ℕ → List ℕ → Option (Poll × List Poll) → Option (List ℕ × List Poll)
sent_at c sent none = none
sent_at c sent (some (p, polls)) = some (sent ++ (c ∷ []), polls)

module _ (d : Device) where
  unfoldable pub xgetchar : List Poll → Option (ℤ × List Poll)
  unfolding wait
  xgetchar polls = received_at (wait d.rxc0 polls)

  -- With what has been sent.
  unfoldable pub xputchar : ℕ → List ℕ → List Poll → Option (List ℕ × List Poll)
  unfolding wait
  xputchar c sent polls = sent_at c sent (wait d.udre0 polls)

  -- n calls of xgetchar one after the other, as far as they return.
  unfoldable pub gets : ℕ → List Poll → List ℤ
  unfolding xgetchar
  gets zero polls = []
  gets (suc n) polls = elim (xgetchar polls) [ none ↦ [] | some r ↦ r.0 ∷ gets n r.1 ]

  -- The characters of a text one after the other.
  unfoldable pub sends : List ℕ → List ℕ → List Poll → Option (List ℕ × List Poll)
  unfolding xputchar
  sends [] sent polls = some (sent, polls)
  sends (c ∷ s) sent polls = elim (xputchar c sent polls) [ none ↦ none | some r ↦ sends s r.0 r.1 ]

-- The tests that find the bit.
abbrev pub ready : ℕ → List Poll → List Poll
ready k [] = []
ready k (p ∷ polls) = if bit p.status k then p ∷ ready k polls else ready k polls

abbrev pub first : {A : Type 0} → ℕ → List A → List A
first zero xs = []
first (suc n) [] = []
first (suc n) (x ∷ xs) = x ∷ first n xs

-- Waiting ends at the first test that finds the bit, and passes over no other.
wait-ready :
    (k : ℕ) (polls : List Poll)
    → elim (wait k polls) [ none ↦ [] | some r ↦ r.0 ∷ ready k r.1 ] ≡ ready k polls
unfolding wait
wait-ready k [] = refl
wait-ready k (p ∷ polls) = elim (Bool-cases (bit p.status k)) [
  | inl found ↦ rw (found) refl
  | inr not_yet ↦ rw (not_yet) (wait-ready k polls)
]

module _ (d : Device) where
  abbrev pub read_at : Poll → ℤ
  read_at p = of_char p.received

  gets_after :
      (n : ℕ) (w : Option (Poll × List Poll)) (l : List Poll)
      → elim w [ none ↦ [] | some r ↦ r.0 ∷ ready d.rxc0 r.1 ] ≡ l
      → ((polls : List Poll) → gets d n polls ≡ map read_at (first n (ready d.rxc0 polls)))
      → elim (received_at w) [ none ↦ [] | some r ↦ r.0 ∷ gets d n r.1 ]
        ≡ map read_at (first (suc n) l)
  gets_after n none l e rest = ap (λ z. map read_at (first (suc n) z)) e
  gets_after n (some (p, polls)) l e rest =
      ap (λ z. read_at p ∷ z) (rest polls) ∙ ap (λ z. map read_at (first (suc n) z)) e

  -- n calls of xgetchar return, in order and as signed numbers, the first n of the characters
  -- that UDR0 holds in the tests that find RXC0 set, or all of them if there are fewer: none is
  -- skipped or read twice.
  pub gets-ready :
      (n : ℕ) (polls : List Poll) → gets d n polls ≡ map read_at (first n (ready d.rxc0 polls))
  unfolding gets xgetchar
  gets-ready zero polls = refl
  gets-ready (suc n) polls =
      gets_after n (wait d.rxc0 polls) _ (wait-ready d.rxc0 polls) (gets-ready n)

  sends_after :
      (c : ℕ) (s sent : List ℕ) (w : Option (Poll × List Poll)) (l : List Poll)
      → elim w [ none ↦ [] | some r ↦ r.0 ∷ ready d.udre0 r.1 ] ≡ l
      → suc (length s) ≤ length l
      → ((sent' : List ℕ) (polls : List Poll)
          → length s ≤ length (ready d.udre0 polls)
          → (rest : List Poll) × (sends d s sent' polls ≡ some (sent' ++ s, rest)))
      → (rest : List Poll) × (elim (sent_at c sent w) [ none ↦ none | some r ↦ sends d s r.0 r.1 ]
          ≡ some (sent ++ (c ∷ s), rest))
  sends_after c s sent none l e enough next = absurd (ground arith)
  sends_after c s sent (some (p, polls)) l e enough next =
      let (rest, same) = next (sent ++ (c ∷ [])) polls (ground arith) in
      (rest, same ∙ ap (λ z. some (z, rest)) (append_assoc sent (c ∷ []) s))

  -- If as many tests of the status find UDRE0 set as a text has characters, xputchar called for
  -- each of them sends the whole text in order, after what was sent before.
  pub sends_lem :
      (s sent : List ℕ) (polls : List Poll)
      → length s ≤ length (ready d.udre0 polls)
      → (rest : List Poll) × (sends d s sent polls ≡ some (sent ++ s, rest))
  unfolding sends xputchar
  sends_lem [] sent polls enough = (polls, ap (λ z. some (z, polls)) (sym (append-nil sent)))
  sends_lem (c ∷ s) sent polls enough =
      sends_after c s sent (wait d.udre0 polls) _ (wait-ready d.udre0 polls) enough (sends_lem s)
