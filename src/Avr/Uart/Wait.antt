-- ===== src/Avr/Uart/Wait.antt =====
-- The reader of misc/c/avr.h: which character it returns while more of them arrive.
use mathlib.Core.Path.{subst}
use mathlib.Core.List.{append_assoc, append-nil}
use north_arm.Prelude.{
  ℕ, zero, suc, sym, ap, ◌∙◌, ◌+◌, true, false, ◌≤◌, ◌<◌, ◌≡◌, refl, inl, inr, List, [], ◌∷◌, ◌++◌,
  Option, some, ltb, length, length-append, arith, if◌then◌else◌, Bool-cases,
}
use north_arm.Prelude.Int.{ℤ, pos}
use north_arm.RingBuffer.{of_char}
use north_arm.RingBuffer.Valid.{get-IsValid, size-get, count}
use north_arm.RingBuffer.Refine.{contents, get_refines, length-from}
use north_arm.RingBuffer.Queue
use north_arm.RingBuffer.Queue.{got}
use north_arm.Avr.Uart.{Port, take, spin, receive, arrive, wait_on, uart_rb_getchar, xon}
use north_arm.Avr.Uart.Full.{IsReady, receive-IsReady, receive_lem}

-- The list from its first character below 128 on.
unfoldable pub skim : List ℕ → List ℕ
skim [] = []
skim (c ∷ cs) = if ltb c 128 then c ∷ cs else skim cs

-- The port is ready, and `q` is what its buffer holds.
pub record Holds (p : Port) (q : List ℕ) : Type 0 where
  pub ready : IsReady p
  pub queue : contents p.rx ≡ q

length-lt : {p : Port} {q : List ℕ} → Holds p q → length q < 32
length-lt {p} h = rw (← h.queue) (
    rw (length-from p.rx.buffer p.rx.size p.rx.rpos (count p.rx))
      (ground (arith, h.ready.valid, h.ready.sized)))

take-Holds :
    {p : Port} (c : ℕ) (q : List ℕ)
    → Holds p (c ∷ q)
    → ((take p).0 ≡ of_char c) × Holds (take p).1 q
unfolding take Queue.step
take-Holds {p} c q h =
    ground (arith, get_refines h.ready.valid, get-IsValid h.ready.valid, size-get p.rx)

take_empty : {p : Port} → Holds p [] → ((take p).0 ≡ of_char 255) × Holds (take p).1 []
unfolding take Queue.step
take_empty {p} h =
    ground (arith, get_refines h.ready.valid, get-IsValid h.ready.valid, size-get p.rx)

receive-Holds :
    {p : Port} (c : ℕ) (q : List ℕ)
    → Holds p q
    → length q < 31
    → Holds (receive c p) (q ++ (c ∷ []))
receive-Holds {p} c q h room = record {
  ready = receive-IsReady c h.ready;
  queue = ground (arith, receive_lem c h.ready);
}

arrive-Holds :
    (cs q : List ℕ) {p : Port}
    → Holds p q
    → length q + length cs < 32
    → Holds (arrive cs p) (q ++ cs)
unfolding arrive
arrive-Holds [] q {p} h room = subst (Holds p) (sym (append-nil q)) h
arrive-Holds (c ∷ cs) q {p} h room =
    subst (Holds (arrive cs (receive c p))) (append_assoc q (c ∷ []) cs) (
      arrive-Holds cs (q ++ (c ∷ [])) (receive-Holds c q h (omega arith))
        (omega (arith, length-append q (c ∷ []))))

xon-Holds : {p : Port} {q : List ℕ} → Holds p q → Holds (xon p) q
unfolding xon
xon-Holds h = record {
  ready = record { valid = h.ready.valid; sized = h.ready.sized };
  queue = h.queue;
}

-- In each round at most one character arrives.
abbrev pub Paced : List (List ℕ) → Type 0
Paced [] = Unit {0}
Paced (cs ∷ more) = (length cs ≤ 1) × Paced more

-- Rounds in which nothing arrives.
abbrev pub quiet : ℕ → List (List ℕ)
quiet zero = []
quiet (suc k) = [] ∷ quiet k

abbrev pub all_of : List (List ℕ) → List ℕ
all_of [] = []
all_of (cs ∷ more) = cs ++ all_of more

-- A call has returned `b`, and `rest` is what is left, in the buffer and on the line.
pub record Returned (b : ℕ) (rest : List ℕ) (out : Option ℤ × List (List ℕ) × Port) : Type 0 where
  pub result : out.0 ≡ some (pos b)
  pub left : contents out.2.rx ++ all_of out.1 ≡ rest
  pub ready : IsReady out.2

quiet_none : (n : ℕ) → all_of (quiet n) ≡ []
quiet_none zero = refl
quiet_none (suc n) = quiet_none n

-- The first character, below 128, is returned at once.
returned :
    {p : Port} (x : ℕ) (q : List ℕ) (rounds : List (List ℕ)) (b : ℕ) (rest : List ℕ)
    → Holds p (x ∷ q)
    → ltb x 128 ≡ true
    → skim ((x ∷ q) ++ all_of rounds) ≡ b ∷ rest
    → Returned b rest (some (of_char x), rounds, (take p).1)
unfolding skim
returned x q rounds b rest h ascii e = ground (arith, take-Holds x q h)

spin_ascii :
    {p : Port} (x : ℕ) (q : List ℕ) (rounds : List (List ℕ))
    → Holds p (x ∷ q)
    → ltb x 128 ≡ true
    → spin rounds p ≡ (some (of_char x), rounds, (take p).1)
unfolding spin
spin_ascii x q [] h ascii = ground (arith, take-Holds x q h)
spin_ascii x q (cs ∷ more) h ascii = ground (arith, take-Holds x q h)

spin_dropped :
    {p : Port} (x : ℕ) (q : List ℕ) (cs : List ℕ) (more : List (List ℕ))
    → Holds p (x ∷ q)
    → ltb x 128 ≡ false
    → spin (cs ∷ more) p ≡ spin more (arrive cs (take p).1)
unfolding spin
spin_dropped x q cs more h high = ground (arith, take-Holds x q h)

spin_empty :
    {p : Port} (cs : List ℕ) (more : List (List ℕ))
    → Holds p []
    → spin (cs ∷ more) p ≡ spin more (arrive cs (take p).1)
unfolding spin
spin_empty cs more h = ground (arith, take_empty h)

-- Nothing more arrives, and there are rounds enough for what the buffer holds.
spin_quiet :
    (n : ℕ) (p : Port) (q : List ℕ) (b : ℕ) (rest : List ℕ)
    → Holds p q
    → skim (q ++ all_of (quiet n)) ≡ b ∷ rest
    → length q ≤ suc n
    → Returned b rest (spin (quiet n) p)
unfolding skim arrive
spin_quiet n p [] b rest h e room = ground (arith, quiet_none n)
spin_quiet zero p (x ∷ []) b rest h e room = elim (Bool-cases (ltb x 128)) [
  | inl ascii ↦ rw (spin_ascii x [] [] h ascii) (returned x [] [] b rest h ascii e)
  | inr high ↦ ground arith
]
spin_quiet zero p (x ∷ (y ∷ q)) b rest h e room = ground arith
spin_quiet (suc n) p (x ∷ q) b rest h e room = elim (Bool-cases (ltb x 128)) [
  | inl ascii ↦
      rw (spin_ascii x q (quiet (suc n)) h ascii) (returned x q (quiet (suc n)) b rest h ascii e)
  | inr high ↦
      rw (spin_dropped x q [] (quiet n) h high)
        (spin_quiet n (take p).1 q b rest (take-Holds x q h).1 (ground arith) (omega arith))
]

module _ (k : ℕ) (long : 31 ≤ k) where
  spin_lem :
      (rounds : List (List ℕ)) (p : Port) (q : List ℕ) (b : ℕ) (rest : List ℕ)
      → Holds p q
      → Paced rounds
      → skim (q ++ all_of (rounds ++ quiet k)) ≡ b ∷ rest
      → Returned b rest (spin (rounds ++ quiet k) p)
  unfolding skim
  spin_lem [] p q b rest h paced e = spin_quiet k p q b rest h e (omega (arith, length-lt h))
  spin_lem (cs ∷ more) p [] b rest h paced e = rw (spin_empty cs (more ++ quiet k) h) (
      spin_lem more (arrive cs (take p).1) cs b rest
        (arrive-Holds cs [] (take_empty h).1 (omega (arith, paced.0))) paced.1
        (ground (arith, append_assoc cs (all_of (more ++ quiet k)))))
  spin_lem (cs ∷ more) p (x ∷ q) b rest h paced e = elim (Bool-cases (ltb x 128)) [
    | inl ascii ↦
        rw (spin_ascii x q (cs ∷ (more ++ quiet k)) h ascii)
          (returned x q (cs ∷ (more ++ quiet k)) b rest h ascii e)
    | inr high ↦ rw (spin_dropped x q cs (more ++ quiet k) h high) (
        spin_lem more (arrive cs (take p).1) (q ++ cs) b rest
          (arrive-Holds cs q (take-Holds x q h).1 (omega (arith, length-lt h, paced.0))) paced.1
          (ground (arith, append_assoc q cs (all_of (more ++ quiet k)))))
  ]

module _ (k : ℕ) (long : 32 ≤ k) where
  wait_on_lem :
      (rounds : List (List ℕ)) (p : Port) (q : List ℕ) (b : ℕ) (rest : List ℕ)
      → Holds p q
      → length q ≤ 30
      → Paced rounds
      → skim (q ++ all_of (rounds ++ quiet (suc k))) ≡ b ∷ rest
      → Returned b rest (wait_on (rounds ++ quiet (suc k)) p)
  unfolding wait_on
  wait_on_lem [] p q b rest h room paced e =
      spin_quiet k (xon p) q b rest (xon-Holds h) e (omega arith)
  wait_on_lem (cs ∷ more) p q b rest h room paced e =
      let all = all_of (more ++ quiet (suc k)) in
      spin_lem (suc k) (omega arith) more (arrive cs (xon p)) (q ++ cs) b rest
        (arrive-Holds cs q (xon-Holds h) (omega (arith, paced.0))) paced.1
        (ap skim (append_assoc q cs all) ∙ e)

  getchar_lem :
      (rounds : List (List ℕ)) (p : Port) (q : List ℕ) (b : ℕ) (rest : List ℕ)
      → Holds p q
      → Paced rounds
      → skim (q ++ all_of (rounds ++ quiet (suc k))) ≡ b ∷ rest
      → Returned b rest (uart_rb_getchar (rounds ++ quiet (suc k)) p)
  unfolding uart_rb_getchar skim
  getchar_lem rounds p [] b rest h paced e =
      let waited = wait_on_lem rounds (take p).1 [] b rest (take_empty h).1 (omega arith) paced e in
      ground (arith, take_empty h, waited)
  getchar_lem rounds p (x ∷ q) b rest h paced e = elim (Bool-cases (ltb x 128)) [
    | inl ascii ↦
        let out = returned x q (rounds ++ quiet (suc k)) b rest h ascii e in
        ground (arith, take-Holds x q h, out)
    | inr high ↦
        let waited =
          wait_on_lem rounds (take p).1 q b rest (take-Holds x q h).1 (omega (arith, length-lt h))
            paced (ground arith) in
        ground (arith, take-Holds x q h, waited)
  ]

-- From a ready port, where at most one character arrives in each round of the loop and 33 or
-- more rounds in which none arrives follow: if b is the first below 128 of the characters
-- waiting and then those arriving, uart_rb_getchar returns b, and what follows b is left in
-- order, in the buffer and on the line.
pub uart_rb_getchar_lem :
    (rounds : List (List ℕ)) (k : ℕ) (p : Port) (b : ℕ) (rest : List ℕ)
    → IsReady p
    → Paced rounds
    → 33 ≤ k
    → skim (contents p.rx ++ all_of (rounds ++ quiet k)) ≡ b ∷ rest
    → Returned b rest (uart_rb_getchar (rounds ++ quiet k) p)
uart_rb_getchar_lem rounds zero p b rest r paced long e = ground arith
uart_rb_getchar_lem rounds (suc k) p b rest r paced long e =
    getchar_lem k (omega arith) rounds p (contents p.rx) b rest (record { ready = r; queue = refl })
      paced e
