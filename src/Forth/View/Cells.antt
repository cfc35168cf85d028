-- ===== src/Forth/View/Cells.antt =====
-- Reading and writing cells under a view.
use north_arm.Prelude.{
  Bool-cases, ℕ, zero, suc, ◌+◌, ◌-◌, ◌*◌, ◌≤◌, ◌<◌, ◌≡◌, ◌⊎◌, inl, inr, refl, Option, none, some,
  List, [], ◌∷◌, length, set, length-set, arith, ◌==◌, if◌then◌else◌,
}
use mathlib.Core.Path.{subst}
use mathlib.Core.Option.{some-injective}
use north_arm.Machine.{update}
use north_arm.Forth.Vm.{Area, inside, find, replace, look, change, cut, top_of}
use north_arm.Forth.View.{Stack, View, vm_of}

pub Stack-update :
    (c : ℕ → Option ℕ) (a v s : ℕ) (xs : List ℕ)
    → (a < s) ⊎ (s + 8 * length xs ≤ a)
    → Stack c s xs
    → Stack (update c a v) s xs
Stack-update c a v s [] h st = tt
Stack-update c a v s (x ∷ xs) h st =
    (ground arith, Stack-update c a v (s + 8) xs (omega arith) st.1)

Stack-set :
    (c : ℕ → Option ℕ) (s a k u : ℕ) (xs : List ℕ)
    → a ≡ s + 8 * k
    → k < length xs
    → Stack c s xs
    → Stack (update c a u) s (set xs k u)
Stack-set c s a k u [] e h st = tt
Stack-set c s a zero u (x ∷ xs) e h st =
    (ground arith, Stack-update c a u (s + 8) xs (omega arith) st.1)
Stack-set c s a (suc k) u (x ∷ xs) e h st =
    (ground arith, Stack-set c (s + 8) a k u xs (omega arith) (omega arith) st.1)

no_list : {xs : List ℕ} → none ≡ some xs → ⊥
no_list e = cc

-- What `find` gives is in memory.
find-Stack :
    (area : Area) (c : ℕ → Option ℕ) (s a v : ℕ) (xs : List ℕ)
    → s + 8 * length xs ≡ area.limit
    → Stack c s xs
    → find area xs a ≡ some v
    → c a ≡ some v
unfolding find
find-Stack area c s a v [] e st f = cc
find-Stack area c s a v (x ∷ xs) e st f = ground (arith, find-Stack area c (s + 8) a v xs)

-- What `replace` writes is what a store to the address writes.
replace-Stack :
    (area : Area) (c : ℕ → Option ℕ) (s a v u : ℕ) (xs : List ℕ)
    → s + 8 * length xs ≡ area.limit
    → Stack c s xs
    → find area xs a ≡ some u
    → Stack (update c a v) s (replace area xs a v)
unfolding find replace
replace-Stack area c s a v u [] e st f = tt
replace-Stack area c s a v u (x ∷ xs) e st f = elim (Bool-cases (a == top_of area (x ∷ xs))) [
  | inl hit ↦ rw hit ((ground arith, Stack-update c a v (s + 8) xs (ground arith) st.1))
  | inr miss ↦
      rw miss
        ((ground arith, replace-Stack area c (s + 8) a v u xs (omega arith) st.1 (rw miss at f)))
]

length-replace : (area : Area) (a v : ℕ) (xs : List ℕ) → length (replace area xs a v) ≡ length xs
unfolding replace
length-replace area a v [] = refl
length-replace area a v (x ∷ xs) = ground (arith, length-replace area a v xs)

module _ (area : Area) {memory : ℕ → Option ℕ} where
  -- A new cell on top.
  pub View-push :
      (c : ℕ → Option ℕ) (s v : ℕ) (xs : List ℕ)
      → area.base + 8 * suc (length xs) ≤ area.limit
      → View area c s xs memory
      → View area (update c (s - 8) v) (s - 8) (v ∷ xs) memory
  View-push c s v xs fits w = record {
    stack = (
      ground arith,
      let e : s - 8 + 8 ≡ s = omega (arith, w) in
          rw e (Stack-update c (s - 8) v s xs (ground (arith, w)) w.stack),
    );
    outside = λ a h. ground (arith, w.outside a, w);
    room = λ a lo hi al. ground (arith, w.room a, w);
    bottom = ground (arith, w);
    top = ground (arith, w);
  }

  -- The top cell dropped.
  pub View-pop :
      (c : ℕ → Option ℕ) (s v : ℕ) (xs : List ℕ)
      → View area c s (v ∷ xs) memory
      → View area c (s + 8) xs memory
  View-pop c s v xs w = record {
    stack = w.stack.1;
    outside = w.outside;
    room = λ a lo hi al. ground (arith, w.room a, w);
    bottom = ground (arith, w);
    top = ground (arith, w);
  }

  -- A cell written just below the stack, and left there.
  pub View-below :
      (c : ℕ → Option ℕ) (s v : ℕ) (xs : List ℕ)
      → area.base + 8 * suc (length xs) ≤ area.limit
      → View area c s xs memory
      → View area (update c (s - 8) v) s xs memory
  View-below c s v xs fits w =
      let back : s - 8 + 8 ≡ s = omega (arith, w, fits) in
      subst (λ t. View area (update c (s - 8) v) t xs memory) back
        (View-pop (update c (s - 8) v) (s - 8) v xs (View-push c s v xs fits w))

  -- The cell at depth `k` written, at the address `a`.
  pub View-set :
      (c : ℕ → Option ℕ) (s a k u : ℕ) (xs : List ℕ)
      → a ≡ s + 8 * k
      → k < length xs
      → View area c s xs memory
      → View area (update c a u) s (set xs k u) memory
  View-set c s a k u xs e h w = record {
    stack = Stack-set c s a k u xs e h w.stack;
    outside = λ b o. ground (arith, w.outside b, w);
    room = λ b lo hi al. ground (arith, w.room b);
    bottom = w.bottom;
    top = rw (length-set xs k u) w.top;
  }

  -- A cell of the program, read.
  pub fetch-View :
      (c : ℕ → Option ℕ) (s a w : ℕ) (xs : List ℕ)
      → View area c s xs memory
      → (if inside area a then none else memory a) ≡ some w
      → c a ≡ some w
  fetch-View c s a w xs v e = ground (arith, v.outside a)

  -- Any cell, read.
  pub look-View :
      (c : ℕ → Option ℕ) (s a v i l : ℕ) (xs : List ℕ)
      → View area c s xs memory
      → look area (vm_of i xs memory l) a ≡ some v
      → c a ≡ some v
  unfolding look
  look-View c s a v i l xs w e = ground (arith, w.outside a, w, find-Stack area c s a v xs)

  -- Any cell, written.
  pub change-View :
      (c : ℕ → Option ℕ) (s a v u i l : ℕ) (xs : List ℕ)
      → View area c s xs memory
      → look area (vm_of i xs memory l) a ≡ some u
      → let after = change area (vm_of i xs memory l) a v in
        View area (update c a v) s after.stack after.memory
  unfolding look change
  change-View c s a v u i l xs w e = elim (Bool-cases (inside area a)) [
    | inl stack ↦ rw stack (record {
      stack = replace-Stack area c s a v u xs w.top w.stack (rw stack at e);
      outside = λ b o. ground (arith, w.outside b);
      room = λ b lo hi al. ground (arith, w.room b);
      bottom = w.bottom;
      top = rw (length-replace area a v xs) w.top;
    })
    | inr other ↦ rw other (record {
      stack = Stack-update c a v s xs (ground (arith, w)) w.stack;
      outside = λ b o. ground (arith, w.outside b);
      room = λ b lo hi al. ground (arith, w.room b);
      bottom = w.bottom;
      top = w.top;
    })
  ]

  -- The stack pointer moved to the top of what `cut` leaves.
  pub cut-View :
      (c : ℕ → Option ℕ) (s a : ℕ) (xs rest : List ℕ)
      → View area c s xs memory
      → cut area xs a ≡ some rest
      → View area c a rest memory
  unfolding cut
  cut-View c s a [] rest w e = elim (Bool-cases (a == area.limit)) [
    | inl hit ↦
        let same : s ≡ a = ground (arith, w) in
        subst (λ ys. View area c a ys memory) (some-injective [] rest (rw hit at e))
          (subst (λ t. View area c t [] memory) same w)
    | inr miss ↦ absurd (no_list (rw miss at e))
  ]
  cut-View c s a (x ∷ xs) rest w e = elim (Bool-cases (a == top_of area (x ∷ xs))) [
    | inl hit ↦
        let same : s ≡ a = ground (arith, w) in
        subst (λ ys. View area c a ys memory) (some-injective (x ∷ xs) rest (rw hit at e))
          (subst (λ t. View area c t (x ∷ xs) memory) same w)
    | inr miss ↦ cut-View c (s + 8) a xs rest (View-pop c s x xs w) (rw miss at e)
  ]
