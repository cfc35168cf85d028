-- ===== src/Forth/Runs/Round.antt =====
-- One round of the loop of `_next`, under a view.
use north_arm.Prelude.{
  ℕ, suc, ◌+◌, ◌-◌, ◌*◌, length, ◌≡◌, ◌≤◌, ap, ◌∙◌, true, Option, none, some, List, arith, inl, inr,
  Option-cases,
}
use mathlib.Core.Path.{subst}
use mathlib.Core.Bool.{false≢true}
use mathlib.Core.Option.{some-injective}
use north_arm.Machine.{Machine, M, update, and_then, fail, load_then, store_then, ◌>>=◌}
use north_arm.C5.Op.{Op, Host, code_of, data_of}
use north_arm.C5.Run.{perform, run, loop, round, through}
use north_arm.C5.Control.{doop}
use north_arm.Forth.Vm.{Area, Vm, fetch, Fits}
use north_arm.Forth.View.{View, at, is_some}
use north_arm.Forth.View.Cells.{View-push, fetch-View}
use north_arm.Forth.Runs.{Kind, primitive, colon, own, kind_of, decode, Goes}

none_ne_kind : {k : Kind} → none ≡ some k → ⊥
none_ne_kind e = cc

mapped : (c : ℕ → Option ℕ) (a : ℕ) → is_some (c a) ≡ true → (v : ℕ) × (c a ≡ some v)
mapped c a h = elim (Option-cases (c a)) [
  | inl z ↦ absurd (false≢true (rw z at h))
  | inr found ↦ found
]

-- The cell below a stack that has room.
pub below_mapped :
    (area : Area) {memory : ℕ → Option ℕ} (c : ℕ → Option ℕ) (s : ℕ) (xs : List ℕ)
    → area.base + 8 * suc (length xs) ≤ area.limit
    → View area c s xs memory
    → (u : ℕ) × (c (s - 8) ≡ some u)
below_mapped area c s xs fits v =
    mapped c (s - 8) (v.room (s - 8) (omega (arith, v)) (omega (arith, v)) (omega (arith, v)))

module _ (host : Host) (area : Area) where
  -- What a word of each kind has in its cells.
  pub record IsPrimitive (vm : Vm) (w : ℕ) (o : Op) : Type 0 where
    pub code_at : ℕ
    pub data_at : ℕ
    pub has_code : fetch area vm (code_of w) ≡ some code_at
    pub is_doop : host.text code_at ≡ some Op.doop
    pub has_data : fetch area vm (data_of w) ≡ some data_at
    pub is_op : host.text data_at ≡ some o

  pub record IsColon (vm : Vm) (w b : ℕ) : Type 0 where
    pub code_at : ℕ
    pub has_code : fetch area vm (code_of w) ≡ some code_at
    pub is_docol : host.text code_at ≡ some Op.docol
    pub has_data : fetch area vm (data_of w) ≡ some b

  pub record IsOwn (vm : Vm) (w : ℕ) (o : Op) : Type 0 where
    pub code_at : ℕ
    pub has_code : fetch area vm (code_of w) ≡ some code_at
    pub is_op : host.text code_at ≡ some o

  unfoldable pub Means : Vm → ℕ → Kind → Type 0
  Means vm w (primitive o) = IsPrimitive vm w o
  Means vm w (colon b) = IsColon vm w b
  Means vm w (own o) = IsOwn vm w o

  pub doop-Means :
      (vm : Vm) (w cd : ℕ) (k : Kind)
      → fetch area vm (code_of w) ≡ some cd
      → host.text cd ≡ some Op.doop
      → kind_of host area vm w Op.doop ≡ some k
      → Means vm w k
  unfolding Means
  doop-Means vm w cd k e1 e2 h = elim (Option-cases (fetch area vm (data_of w))) [
    | inl z ↦ absurd (none_ne_kind (rw z at h))
    | inr (f, e3) ↦ elim (Option-cases (host.text f)) [
      | inl z ↦ absurd (none_ne_kind (rw (e3, z) at h))
      | inr (o, e4) ↦
          let same : primitive o ≡ k = some-injective _ _ (rw (e3, e4) at h) in
          subst (Means vm w) same (record {
            code_at = cd;
            data_at = f;
            has_code = e1;
            is_doop = e2;
            has_data = e3;
            is_op = e4;
          })
    ]
  ]

  docol-Means :
      (vm : Vm) (w cd : ℕ) (k : Kind)
      → fetch area vm (code_of w) ≡ some cd
      → host.text cd ≡ some Op.docol
      → kind_of host area vm w Op.docol ≡ some k
      → Means vm w k
  unfolding Means
  docol-Means vm w cd k e1 e2 h = elim (Option-cases (fetch area vm (data_of w))) [
    | inl z ↦ absurd (none_ne_kind (rw z at h))
    | inr (b, e3) ↦
        let same : colon b ≡ k = some-injective _ _ (rw e3 at h) in
        subst (Means vm w) same
          (record { code_at = cd; has_code = e1; is_docol = e2; has_data = e3 })
  ]

  own-Means :
      (vm : Vm) (w cd : ℕ) (op : Op) (k : Kind)
      → fetch area vm (code_of w) ≡ some cd
      → host.text cd ≡ some op
      → some (own op) ≡ some k
      → Means vm w k
  unfolding Means
  own-Means vm w cd op k e1 e2 h =
      subst (Means vm w) (some-injective (own op) k h)
        (record { code_at = cd; has_code = e1; is_op = e2 })

  kind-Means :
      (op : Op) (vm : Vm) (w cd : ℕ) (k : Kind)
      → fetch area vm (code_of w) ≡ some cd
      → host.text cd ≡ some op
      → kind_of host area vm w op ≡ some k
      → Means vm w k
  kind-Means Op.doop = doop-Means
  kind-Means Op.docol = docol-Means
  kind-Means op = λ vm w cd. own-Means vm w cd _

  pub decode-Means : (vm : Vm) (w : ℕ) (k : Kind) → decode host area vm w ≡ some k → Means vm w k
  unfolding decode
  decode-Means vm w k h = elim (Option-cases (fetch area vm (code_of w))) [
    | inl z ↦ absurd (none_ne_kind (rw z at h))
    | inr (cd, e1) ↦ elim (Option-cases (host.text cd)) [
      | inl z ↦ absurd (none_ne_kind (rw (e1, z) at h))
      | inr (op, e2) ↦ kind-Means op vm w cd k e1 e2 (rw (e1, e2) at h)
    ]
  ]

  -- The word is pushed and its `code` is called.
  pub loop_code :
      (n w cd : ℕ) (op : Op) (m : Machine) (c : ℕ → Option ℕ) (s : ℕ) (vm : Vm)
      → Goes host area w vm
      → Fits area vm
      → fetch area vm (code_of w) ≡ some cd
      → host.text cd ≡ some op
      → View area c s vm.stack vm.memory
      → loop host (suc n) w (at m c s vm)
        ≡ (run host n op >>= loop host n) (at m (update c (s - 8) w) (s - 8) vm)
  unfolding loop round through run
  loop_code n w cd op m c s vm goes fits e1 e2 v =
      let (u, free) = below_mapped area c s vm.stack fits v in
      let v1 = View-push area c s w vm.stack fits v in
      let code = fetch-View area (update c (s - 8) w) (s - 8) (code_of w) cd _ v1 e1 in
      rw goes (
        store_then (record m { cells = c; sp = s - 8; ip = vm.ip; last_word = vm.last_word }) free w
          _
        ∙ load_then (at m (update c (s - 8) w) (s - 8) vm) code _
        ∙ ap
            (λ (o : Option Op).
              and_then
                ((elim o as (λ _. M ℕ) [ none ↦ fail | some op' ↦ run host n op' ])
                  (at m (update c (s - 8) w) (s - 8) vm))
                (loop host n))
            e2)

  -- `_doop` calls the function in the word's `data`, with the word dropped.
  doop_lem :
      (run_op : Op → M ℕ) (w f : ℕ) (o : Op) (m : Machine)
      → m.cells m.sp ≡ some w
      → m.cells (data_of w) ≡ some f
      → host.text f ≡ some o
      → doop (through host run_op) m ≡ run_op o (record m { sp = m.sp + 8 })
  unfolding doop through
  doop_lem run_op w f o m e1 e2 e3 =
      load_then m e1 _
      ∙ load_then m e2 _
      ∙ ap
          (λ (x : Option Op).
            (elim x as (λ _. M ℕ) [ none ↦ fail | some op ↦ run_op op ])
              (record m { sp = m.sp + 8 }))
          e3

  -- A word whose `code` is `_doop` is the function in its `data`, on the stack as it was.
  pub loop_primitive :
      (n w : ℕ) (o : Op) (m : Machine) (c : ℕ → Option ℕ) (s : ℕ) (vm : Vm)
      → Goes host area w vm
      → Fits area vm
      → decode host area vm w ≡ some (primitive o)
      → View area c s vm.stack vm.memory
      → loop host (suc (suc (suc n))) w (at m c s vm)
        ≡ (run host (suc n) o >>= loop host (suc (suc n))) (at m (update c (s - 8) w) s vm)
  unfolding Means run perform
  loop_primitive n w o m c s vm goes fits d v =
      let p = decode-Means vm w (primitive o) d in
      let v1 = View-push area c s w vm.stack fits v in
      let there =
        fetch-View area (update c (s - 8) w) (s - 8) (data_of w) p.data_at _ v1 p.has_data in
      let back : s - 8 + 8 ≡ s = omega (arith, v, fits) in
      loop_code (suc (suc n)) w p.code_at Op.doop m c s vm goes fits p.has_code p.is_doop v
      ∙ ap (λ r. and_then r (loop host (suc (suc n))))
          (doop_lem (run host (suc n)) w p.data_at o (at m (update c (s - 8) w) (s - 8) vm)
              v1.stack.0 there p.is_op
            ∙ ap (λ t. run host (suc n) o (at m (update c (s - 8) w) t vm)) back)
