-- ===== src/Interp/Places.antt =====
-- Cells of the stack by their place under its top, read and written by their addresses, and
-- swap-places of misc/c/c4-interp.c.
use mathlib.Core.Path.{subst}
use north_arm.Prelude.{
  ℕ, zero, suc, ◌+◌, ◌*◌, ◌<◌, ◌≤◌, ◌≡◌, refl, some, List, [], ◌∷◌, ◌++◌, length, get_elem?, set,
  length-set, length-append, sym, arith,
}
use north_arm.Word64.{word_mod}
use north_arm.C5.Op.{Op}
use north_arm.Forth.Vm.{Area, Vm, effect, shuffle, look, replace, change, top_of}
use north_arm.Interp.Item.{Item, Colon, op}
use north_arm.Interp.Body.{body}
use north_arm.Interp.Arrays
use north_arm.Interp.Effects.{find-elem, elem-lt}
use north_arm.Interp.Listing.{Setting, vm_at, RunsTo, Room, Listing, before, do_op, do_return}
use north_arm.Interp.Reads.{Defined, listing, from_start, look_at, look-push, look-append}
use north_arm.Interp.Steps.{do_pick, do_peek}

-- The address of the cell `k` places under the top of `xs`.
abbrev pub place : Setting → List ℕ → ℕ → ℕ
place s xs k = top_of s.area xs + 8 * k

replace-set :
    (area : Area) (xs : List ℕ) (k a v : ℕ)
    → 8 * length xs ≤ area.limit
    → a ≡ top_of area xs + 8 * k
    → replace area xs a v ≡ set xs k v
unfolding replace
replace-set area [] k a v h same = refl
replace-set area (x ∷ xs) zero a v h same = ground arith
replace-set area (x ∷ xs) (suc k) a v h same =
    ground (arith, replace-set area xs k a v (omega arith) (omega arith))

look-place :
    (s : Setting) (xs : List ℕ) (k : ℕ) {v : ℕ}
    → Room s 0 xs
    → get_elem? xs k ≡ some v
    → look_at s xs (place s xs k) ≡ some v
unfolding look
look-place s xs k room e =
    ground (arith, elem-lt xs k e, find-elem s.area xs k (place s xs k) e (omega arith) refl)

-- The cell at place `k` of what lies under the address and the value.
poked :
    (s : Setting) (i v k : ℕ) (xs : List ℕ) {old : ℕ}
    → Room s 2 xs
    → get_elem? xs k ≡ some old
    → let p = place s xs k in
      effect s.area Op.poke (vm_at s i (p ∷ v ∷ xs)) ≡ some (vm_at s i (set xs k v))
unfolding effect look change replace
poked s i v k xs room e =
    let p = place s xs k in
    let below = elem-lt xs k e in
    ground (
      arith,
      replace-set s.area xs k p v (omega arith) refl,
      look-push s i p p (v ∷ xs) (omega arith)
          (look-push s 0 v p xs (omega arith) (look-place s xs k (omega arith) e)),
    )

module _ {s : Setting} {items : List Item} (l : Listing s items) where
  pub do_poke :
      (n a v k : ℕ) {xs : List ℕ} {old : ℕ} {after : Vm}
      → get_elem? items n ≡ some (op Op.poke)
      → Room s 3 xs
      → a ≡ place s xs k
      → get_elem? xs k ≡ some old
      → RunsTo s (before l (suc n) (set xs k v)) after
      → RunsTo s (before l n (a ∷ v ∷ xs)) after
  do_poke n a v k {xs} e room same there rest =
      do_op l n {ys = set xs k v} Op.poke e (omega arith)
        (λ i.
          subst
            (λ p. effect s.area Op.poke (vm_at s i (p ∷ v ∷ xs)) ≡ some (vm_at s i (set xs k v)))
            (sym same) (poked s i v k xs (omega arith) there))
        rest

  pub do_peek_place :
      (n a v k : ℕ) (ys xs : List ℕ) {after : Vm}
      → get_elem? items n ≡ some (op Op.peek)
      → Room s (2 + length ys) xs
      → a ≡ place s xs k
      → get_elem? xs k ≡ some v
      → RunsTo s (before l (suc n) (v ∷ (ys ++ xs))) after
      → RunsTo s (before l n (a ∷ (ys ++ xs))) after
  do_peek_place n a v k ys xs e room same there rest =
      do_peek l n a v e (omega (arith, length-append ys xs))
        (subst (λ p. look_at s (ys ++ xs) p ≡ some v) (sym same)
          (look-append s ys (place s xs k) xs (omega arith)
            (look-place s xs k (omega arith) there)))
        rest

elem_there : (xs : List ℕ) (k : ℕ) → k < length xs → (v : ℕ) × (get_elem? xs k ≡ some v)
elem_there [] k h = absurd (omega arith)
elem_there (x ∷ xs) zero h = (x, refl)
elem_there (x ∷ xs) (suc k) h = elem_there xs k (omega arith)

module _ {s : Setting} (pick : Defined s Colon.pick) (small : s.area.limit < word_mod)
    (d : Defined s Colon.swap_places) where
  -- The second write, and the arguments go.
  second :
      (f a b j v : ℕ) (xs : List ℕ)
      → Room s 13 xs
      → b ≡ place s xs j
      → j < length xs
      → RunsTo s
          (before (listing s Colon.swap_places d) 12 (v ∷ f ∷ b ∷ a ∷ xs))
          (vm_at s 0 (set xs j v))
  unfolding body Arrays.swap_places effect shuffle
  second f a b j v xs room eb below =
      let l = listing s Colon.swap_places d in
      let (old, there) = elem_there xs j below in
      do_pick l 12 2 b pick small refl refl refl (omega arith) refl (
        do_poke l 15 b v (suc (suc (suc j))) {xs = f ∷ b ∷ a ∷ xs} refl (omega arith)
          (omega (arith, eb)) there
          (do_op l 16 Op.swap refl (omega (arith, length-set xs j v)) (λ i. refl)
            (do_op l 17 Op.drop refl (omega (arith, length-set xs j v)) (λ i. refl)
              (do_op l 18 Op.swap refl (omega (arith, length-set xs j v)) (λ i. refl)
                (do_op l 19 Op.drop refl (omega (arith, length-set xs j v)) (λ i. refl)
                  (do_return l 20 refl (omega (arith, length-set xs j v))))))))

  -- swap-places with the addresses of the cells at places i and j under its arguments.
  pub swap_places_lem :
      (f a b i j v w : ℕ) (xs : List ℕ)
      → Room s 13 xs
      → a ≡ place s xs i
      → b ≡ place s xs j
      → get_elem? xs i ≡ some v
      → get_elem? xs j ≡ some w
      → RunsTo s
          (vm_at s (s.addresses.list_at Colon.swap_places) (f ∷ b ∷ a ∷ xs))
          (vm_at s 0 (set (set xs i w) j v))
  unfolding body Arrays.swap_places effect shuffle
  swap_places_lem f a b i j v w xs room ea eb vi wj =
      let l = listing s Colon.swap_places d in
      from_start s Colon.swap_places d (
        do_pick l 0 2 a pick small refl refl refl (omega arith) refl (
          do_peek_place l 3 a v i (f ∷ b ∷ a ∷ []) xs refl (omega arith) ea vi (
            do_pick l 4 2 b pick small refl refl refl (omega arith) refl (
              do_peek_place l 7 b w j (v ∷ f ∷ b ∷ a ∷ []) xs refl (omega arith) eb wj (
                do_pick l 8 4 a pick small refl refl refl (omega arith) refl (
                  do_poke l 11 a w (suc (suc (suc (suc i)))) {xs = v ∷ f ∷ b ∷ a ∷ xs} refl
                    (omega arith) (omega (arith, ea)) vi
                    (second f a b j v (set xs i w) (omega (arith, length-set xs i w))
                      (omega (arith, eb, length-set xs i w))
                      (omega (arith, length-set xs i w, elem-lt xs j wj)))))))))
