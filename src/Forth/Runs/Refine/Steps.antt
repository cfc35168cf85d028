-- ===== src/Forth/Runs/Refine/Steps.antt =====
-- Rounds of the loop of `_next` in misc/c/c5.c that run one word without control flow.
use mathlib.Core.Path.{subst}
use mathlib.Core.Option.{some-injective}
use north_arm.Prelude.{
  ◌≢◌, ℕ, zero, suc, ◌+◌, ◌-◌, ◌≡◌, ◌≤◌, ◌||◌, refl, sym, ap, ◌∙◌, true, Option, none, some, ◌∷◌,
  ◌==◌, arith, inl, inr, Option-cases,
}
use north_arm.Machine.{Machine, M, Result, done, update, and_then, ◌>>=◌, load_then}
use north_arm.C5.Op.{Op, Host}
use north_arm.C5.Data.{next_op}
use north_arm.C5.Run.{perform, run, loop, round, through, enter_loop}
use north_arm.Forth.Vm.{Area, Vm, effect, simple, advance, fetch, Fits}
use north_arm.Forth.View.{View, Ends, at}
use north_arm.Forth.View.Cells.{View-push, View-below}
use north_arm.Forth.View.Effect.{effect-Simulates}
use north_arm.Forth.Runs.{primitive, own, decode, Goes}
use north_arm.Forth.Runs.Round.{loop_primitive, loop_code, Means, decode-Means}

none_ne_pair : {p : ℕ × Vm} → none ≡ some p → ⊥
none_ne_pair e = cc

module _ (host : Host) (area : Area) where
  -- With `k` units of fuel or more the loop returns NULL in the state `after`.
  abbrev pub Enough : ℕ → ℕ → Vm → Vm → Type 0
  Enough k w vm after =
      (n : ℕ)
      → k ≤ n
      → (m : Machine) (c : ℕ → Option ℕ) (s : ℕ) → View area c s vm.stack vm.memory
      → Ends area m 0 after (loop host n w (at m c s vm))

  -- The parts of a simple word.
  pub simple_parts :
      (o : Op) (vm vm' : Vm) (w : ℕ)
      → simple area o vm ≡ some (w, vm')
      → (mid : Vm) × (effect area o vm ≡ some mid)
        × (fetch area mid mid.ip ≡ some w)
        × (advance mid ≡ vm')
  unfolding simple
  simple_parts o vm vm' w e = elim (Option-cases (effect area o vm)) [
    | inl z ↦ absurd (none_ne_pair (rw z at e))
    | inr (mid, e1) ↦ elim (Option-cases (fetch area mid mid.ip)) [
      | inl z ↦ absurd (none_ne_pair (rw (e1, z) at e))
      | inr (u, e2) ↦
          let same : (u, advance mid) ≡ (w, vm') = some-injective _ _ (rw (e1, e2) at e) in
          (mid, e1, e2 ∙ ap (λ p. some (p.0)) same, ap (λ p. p.1) same)
    ]
  ]

  pub resume :
      {m : Machine} {after : Vm} {out out' : Result ℕ}
      → out' ≡ out
      → Ends area m 0 after out
      → Ends area m 0 after out'
  resume {m} {after} e r = subst (Ends area m 0 after) (sym e) r

  -- A simple word, and then the rest of the loop.
  pub simple_then :
      (o : Op) (vm vm' after : Vm) (w k n : ℕ) (m : Machine) (c : ℕ → Option ℕ) (s fuel : ℕ)
      (call : ℕ → M ℕ) (next : M ℕ)
      → simple area o vm ≡ some (w, vm')
      → Fits area vm
      → Enough k w vm' after
      → k ≤ n
      → View area c s vm.stack vm.memory
      → Ends area m 0 after ((perform host fuel call next o >>= loop host n) (at m c s vm))
  simple_then o vm vm' after w k n m c s fuel call next e fits rest enough v =
      let (mid, e1, e2, e3) = simple_parts o vm vm' w e in
      let step =
        effect-Simulates host area fuel call next o vm.stack m c vm.memory s vm.ip vm.last_word w
          mid e1 e2 v fits in
      resume (ap (λ r. and_then r (loop host n)) step.ends)
        (subst (λ x. Enough k w x after) (sym e3) rest n enough m step.cells step.sp step.view)

  -- Fuel, written so that the loop unfolds.
  pub fuel_out :
      (k j n w : ℕ) (m : Machine) (after : Vm) (x : Machine)
      → n ≡ k
      → Ends area m 0 after (loop host k w x)
      → Ends area m 0 after (loop host n w x)
  fuel_out k j n w m after x e r = subst (λ t. Ends area m 0 after (loop host t w x)) (sym e) r

  pub enter_loop_lem :
      (rest : ℕ → M ℕ) (m : Machine) {w : ℕ}
      → m.cells m.ip ≡ some w
      → enter_loop host rest m ≡ rest w (record m { ip = m.ip + 8 })
  unfolding enter_loop
  enter_loop_lem rest m e = load_then m e _

  pub next_op_lem :
      (m : Machine) {w : ℕ}
      → m.cells m.ip ≡ some w
      → next_op m ≡ done w (record m { ip = m.ip + 8 })
  unfolding next_op
  next_op_lem m e = load_then m e _

  module _ (real : host.return0_at ≢ 0) where
    pub stopped_case : (w : ℕ) (vm : Vm) → ((w == 0) || (vm.ip == 0)) ≡ true → Enough 1 w vm vm
    unfolding loop run round
    stopped_case w vm h zero enough m c s v = absurd (omega arith)
    stopped_case w vm h (suc n) enough m c s v = record {
      cells = c;
      sp = s;
      ends = rw h refl;
      view = v;
    }

    pub op_case :
        (w w' k : ℕ) (vm vm' after : Vm) (o : Op)
        → Goes host area w vm
        → Fits area vm
        → decode host area vm w ≡ some (primitive o)
        → simple area o vm ≡ some (w', vm')
        → Enough k w' vm' after
        → Enough (3 + k) w vm after
    unfolding run
    op_case w w' k vm vm' after o g fits d e rest n enough m c s v =
        let j = n - 3 in
        fuel_out (suc (suc (suc j))) j n w m after _ (omega arith) (
          resume (loop_primitive host area j w o m c s vm g fits d v) (
            simple_then o vm vm' after w' k (suc (suc j)) m (update c (s - 8) w) s j
              (through host (run host j)) (enter_loop host (loop host j)) e fits rest (omega arith)
              (View-below area c s w vm.stack fits v)))

    pub self_case :
        (w w' k : ℕ) (vm vm' after : Vm) (o : Op)
        → Goes host area w vm
        → Fits area (record vm { stack = w ∷ vm.stack })
        → decode host area vm w ≡ some (own o)
        → simple area o (record vm { stack = w ∷ vm.stack }) ≡ some (w', vm')
        → Enough k w' vm' after
        → Enough (3 + k) w vm after
    unfolding run Means
    self_case w w' k vm vm' after o g fits d e rest n enough m c s v =
        let j = n - 2 in
        let is = decode-Means host area vm w (own o) d in
        fuel_out (suc (suc j)) j n w m after _ (omega arith) (
          resume
            (loop_code host area (suc j) w is.code_at o m c s vm g (omega arith) is.has_code
              is.is_op v)
            (simple_then o (record vm { stack = w ∷ vm.stack }) vm' after w' k (suc j) m
              (update c (s - 8) w) (s - 8) j (through host (run host j))
              (enter_loop host (loop host j)) e fits rest (omega arith)
              (View-push area c s w vm.stack (omega arith) v)))
