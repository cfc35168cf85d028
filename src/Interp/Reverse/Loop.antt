-- ===== src/Interp/Reverse/Loop.antt =====
-- The loop of reverse/3 of misc/c/c4-interp.c, from the ends of the array to its middle.
use mathlib.Core.Path.{subst}
use mathlib.Core.List.{append_assoc}
use north_arm.Prelude.{
  ℕ, suc, ◌+◌, ◌-◌, ◌*◌, ◌^◌, ◌<◌, ◌≤◌, ◌≡◌, ◌∙◌, sym, refl, ap, some, List, [], ◌∷◌, ◌++◌, length,
  length-append, length-set, set, get_elem?, arith,
}
use north_arm.Word64.{word_mod}
use north_arm.Interp.Item.{Colon}
use north_arm.Interp.Listing.{Setting, vm_at, RunsTo, Room, before}
use north_arm.Interp.Reads.{Defined, listing}
use north_arm.Interp.Places.{place}
use north_arm.Interp.Turned.{
  Turned, Turned-pos, single, pair, wrap, get_first, get_last, set_ends, set_same,
}
use north_arm.Interp.Reverse.{swaps, goes_on, stops}

module _ (s : Setting) (pick : Defined s Colon.pick) (small : s.area.limit < word_mod)
    (swap : Defined s Colon.swap_places) (d : Defined s Colon.reverse3) (f len ptr : ℕ)
    (short : len < 2 ^ 61) (bound : ptr + 8 * len < word_mod) where
  -- A run from the start of a round with the number `n` leaves the list `ys` under what is left of
  -- the arguments.
  abbrev pub Leaves : ℕ → List ℕ → List ℕ → Type 0
  Leaves n xs ys =
      (k : ℕ) × RunsTo s (before (listing s Colon.reverse3 d) 0 (f ∷ n ∷ len ∷ ptr ∷ xs))
        (vm_at s 0 (k ∷ len ∷ ptr ∷ ys))

  -- The last round.
  ending :
      (n i j v w : ℕ) (xs ys : List ℕ)
      → Room s 20 xs
      → n < len
      → len ≤ 2 * suc n
      → ptr + 8 * (len - n - 1) ≡ place s xs i
      → ptr + 8 * n ≡ place s xs j
      → get_elem? xs i ≡ some v
      → get_elem? xs j ≡ some w
      → set (set xs i w) j v ≡ ys
      → Leaves n xs ys
  ending n i j v w xs ys room h done ei ej vi wj same =
      let zs = set (set xs i w) j v in
      let size : length zs ≡ length xs = length-set (set xs i w) j v ∙ length-set xs i w in
      (
        suc n,
        swaps pick small swap d f n len ptr i j v w xs room h bound ei ej vi wj (
            subst
              (λ z.
                RunsTo s (before (listing s Colon.reverse3 d) 26 (f ∷ n ∷ len ∷ ptr ∷ zs))
                  (vm_at s 0 (suc n ∷ len ∷ ptr ∷ z)))
              same (stops pick small swap d f n len ptr zs (omega (arith, size)) h short done)),
      )

  pub turns :
      {w w' : List ℕ}
      → Turned w w'
      → (n : ℕ) (pre post xs ys : List ℕ) → Room s 20 xs
      → len ≡ length w + 2 * n
      → ptr + 8 * n ≡ place s xs (length pre)
      → xs ≡ pre ++ (w ++ post)
      → ys ≡ pre ++ (w' ++ post)
      → Leaves n xs ys
  turns (single x) n pre post xs ys room size at e e' =
      ending n (length pre) (length pre) x x xs ys room (omega arith) (omega arith) (omega arith) at
        (get_first pre x post e) (get_first pre x post e) (set_same pre x post e ∙ e ∙ sym e')
  turns (pair x y) n pre post xs ys room size at e e' =
      let i = length pre + 1 in
      ending n i (length pre) y x xs ys room (omega arith) (omega arith) (omega arith) at
        (get_last pre x [] y post i e (omega arith)) (get_first pre x (y ∷ post) e)
        (set_ends pre x [] y post i e (omega arith) ∙ sym e')
  turns (wrap x y {w} {w'} t) n pre post xs ys room size at e e' =
      let i = length pre + suc (length w) in
      let zs = set (set xs i x) (length pre) y in
      let some_left = Turned-pos t in
      let whole = length-append w (y ∷ []) in
      let apart : xs ≡ pre ++ (x ∷ (w ++ (y ∷ post))) =
        e ∙ ap (λ z. pre ++ (x ∷ z)) (append_assoc w (y ∷ []) post) in
      let same_size : length zs ≡ length xs =
        length-set (set xs i x) (length pre) y ∙ length-set xs i x in
      let (k, run) =
        turns t (suc n) (pre ++ (y ∷ [])) (x ∷ post) zs ys (omega (arith, same_size))
          (omega (arith, whole)) (omega (arith, at, same_size, length-append pre (y ∷ [])))
          (set_ends pre x w y post i apart refl ∙ sym (append_assoc pre (y ∷ []) (w ++ (x ∷ post))))
          (e'
            ∙ ap (λ z. pre ++ (y ∷ z)) (append_assoc w' (x ∷ []) post)
            ∙ sym (append_assoc pre (y ∷ []) (w' ++ (x ∷ post)))) in
      (
        k,
        swaps pick small swap d f n len ptr i (length pre) y x xs room (omega (arith, whole)) bound
            (omega (arith, at, whole)) at (get_last pre x w y post i apart refl)
            (get_first pre x (w ++ (y ∷ post)) apart)
            (goes_on pick small swap d f n len ptr zs (omega (arith, same_size))
              (omega (arith, whole)) short (omega (arith, whole)) run),
      )
