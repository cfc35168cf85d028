-- ===== src/Interp/Reverse.antt =====
-- reverse/3 of misc/c/c4-interp.c turns an array round that lies on the stack.
pub mod Loop
pub mod Whole
use mathlib.Core.Path.{subst}
use north_arm.Prelude.{
  ℕ, zero, suc, ◌+◌, ◌-◌, ◌*◌, ◌^◌, ◌<◌, ◌≤◌, ◌≡◌, refl, ap, true, false, some, List, [], ◌∷◌, ◌++◌,
  length, get_elem?, set, length-set, length-append, sym, ◌==◌, arith, ltb, flag,
}
use north_arm.Prelude.Int.{pos}
use north_arm.Word64.{word_mod, add64, sub64, mul64, slt}
use north_arm.C5.Op.{Op}
use north_arm.Forth.Vm.{Vm, effect, shuffle, top_of}
use north_arm.Interp.Item.{Item, Colon, Const, op, word, num, neg}
use north_arm.Interp.Body.{body}
use north_arm.Interp.Arrays
use north_arm.Interp.Values.{const_value}
use north_arm.Interp.Effects.{elem-lt}
use north_arm.Interp.Listing.{
  Setting, vm_at, RunsTo, Room, before, do_op, do_literal, do_constant, do_call, do_return,
  do_jump_back, do_skip,
}
use north_arm.Interp.Reads.{Defined, listing, from_start}
use north_arm.Interp.Steps.{do_pick}
use north_arm.Interp.Places.{place, swap_places_lem}

slt_small : (a b : ℕ) → a < 2 ^ 63 → b < 2 ^ 63 → slt a b ≡ ltb a b
slt_small a b ha hb = ground arith

-- The address of the cell as far from the end as `n` is from the start.
far :
    (len n ptr : ℕ)
    → n < len
    → ptr + 8 * len < word_mod
    → add64 ptr (mul64 (sub64 (sub64 len n) 1) 8) ≡ ptr + 8 * (len - n - 1)
far len n ptr h small = omega arith

near : (n ptr : ℕ) → ptr + 8 * n < word_mod → add64 ptr (mul64 n 8) ≡ ptr + 8 * n
near n ptr small = omega arith

module _ {s : Setting} (pick : Defined s Colon.pick) (small : s.area.limit < word_mod)
    (swap : Defined s Colon.swap_places) (d : Defined s Colon.reverse3) where
  -- The two addresses.
  aims :
      (f n len ptr : ℕ) (xs : List ℕ) {after : Vm}
      → Room s 20 xs
      → n < len
      → ptr + 8 * len < word_mod
      → RunsTo s
          (before
            (listing s Colon.reverse3 d)
            25
            ((ptr + 8 * n) ∷ (ptr + 8 * (len - n - 1)) ∷ f ∷ n ∷ len ∷ ptr ∷ xs))
          after
      → RunsTo s (before (listing s Colon.reverse3 d) 0 (f ∷ n ∷ len ∷ ptr ∷ xs)) after
  unfolding body Arrays.reverse3 effect shuffle const_value
  aims f n len ptr xs room h bound rest =
      let l = listing s Colon.reverse3 d in
      do_pick l 0 3 ptr pick small refl refl refl (omega arith) refl (
        do_pick l 3 3 len pick small refl refl refl (omega arith) refl (
          do_pick l 6 3 n pick small refl refl refl (omega arith) refl (
            do_op l 9 Op.int_sub refl (omega arith) (λ j. refl)
              (do_literal l 10 (num 1) refl refl (omega arith) (
                do_op l 12 Op.int_sub refl (omega arith) (λ j. refl)
                  (do_constant l 13 Const.cell_size (pos 8) refl refl (omega arith) (
                    do_op l 14 Op.int_mul refl (omega arith) (λ j. refl)
                      (do_op l 15 {ys = (ptr + 8 * (len - n - 1)) ∷ f ∷ n ∷ len ∷ ptr ∷ xs}
                        Op.int_add refl (omega arith)
                        (λ j.
                          ap (λ v. some (vm_at s j (v ∷ f ∷ n ∷ len ∷ ptr ∷ xs)))
                            (far len n ptr h bound))
                        (do_pick l 16 4 ptr pick small refl refl refl (omega arith) refl (
                          do_pick l 19 3 n pick small refl refl refl (omega arith) refl (
                            do_constant l 22 Const.cell_size (pos 8) refl refl (omega arith) (
                              do_op l 23 Op.int_mul refl (omega arith) (λ j. refl)
                                (do_op l 24
                                  {ys = (ptr + 8 * n)
                                    ∷ (ptr + 8 * (len - n - 1))
                                    ∷ f
                                    ∷ n
                                    ∷ len
                                    ∷ ptr
                                    ∷ xs}
                                  Op.int_add refl (omega arith)
                                  (λ j.
                                    ap
                                      (λ v. some (
                                        vm_at s j
                                          (v ∷ (ptr + 8 * (len - n - 1)) ∷ f ∷ n ∷ len ∷ ptr ∷ xs)))
                                      (near n ptr (omega arith)))
                                  rest)))))))))))))

  -- The two cells change places.
  pub swaps :
      (f n len ptr i j v w : ℕ) (xs : List ℕ) {after : Vm}
      → Room s 20 xs
      → n < len
      → ptr + 8 * len < word_mod
      → ptr + 8 * (len - n - 1) ≡ place s xs i
      → ptr + 8 * n ≡ place s xs j
      → get_elem? xs i ≡ some v
      → get_elem? xs j ≡ some w
      → RunsTo s
          (before (listing s Colon.reverse3 d) 26 (f ∷ n ∷ len ∷ ptr ∷ set (set xs i w) j v))
          after
      → RunsTo s (before (listing s Colon.reverse3 d) 0 (f ∷ n ∷ len ∷ ptr ∷ xs)) after
  unfolding body Arrays.reverse3
  swaps f n len ptr i j v w xs room h bound ei ej vi wj rest =
      let l = listing s Colon.reverse3 d in
      aims f n len ptr xs room h bound (
        do_call l 25 Colon.swap_places refl (omega arith)
          (swap_places_lem pick small swap _ (ptr + 8 * (len - n - 1)) (ptr + 8 * n)
            (suc (suc (suc (suc i)))) (suc (suc (suc (suc j)))) v w (f ∷ n ∷ len ∷ ptr ∷ xs)
            (omega arith) (omega (arith, ei)) (omega (arith, ej)) vi wj)
          rest)

  -- The number goes up, and is compared.
  counts_up :
      (f n len ptr : ℕ) (xs : List ℕ) {after : Vm}
      → Room s 20 xs
      → n < len
      → len < 2 ^ 61
      → RunsTo s
          (before
            (listing s Colon.reverse3 d)
            41
            (flag (ltb (2 * suc n) len) ∷ f ∷ suc n ∷ len ∷ ptr ∷ xs))
          after
      → RunsTo s (before (listing s Colon.reverse3 d) 26 (f ∷ n ∷ len ∷ ptr ∷ xs)) after
  unfolding body Arrays.reverse3 effect shuffle
  counts_up f n len ptr xs room h bound rest =
      let l = listing s Colon.reverse3 d in
      do_op l 26 Op.swap refl (omega arith) (λ j. refl)
        (do_literal l 27 (num 1) refl refl (omega arith) (
          do_op l 29 {ys = suc n ∷ f ∷ len ∷ ptr ∷ xs} Op.int_add refl (omega arith)
            (λ j. ap (λ v. some (vm_at s j (v ∷ f ∷ len ∷ ptr ∷ xs))) (omega arith))
            (do_op l 30 Op.swap refl (omega arith) (λ j. refl)
              (do_pick l 31 1 (suc n) pick small refl refl refl (omega arith) refl (
                do_literal l 34 (num 2) refl refl (omega arith) (
                  do_op l 36 {ys = (2 * suc n) ∷ f ∷ suc n ∷ len ∷ ptr ∷ xs} Op.int_mul refl
                    (omega arith)
                    (λ j. ap (λ v. some (vm_at s j (v ∷ f ∷ suc n ∷ len ∷ ptr ∷ xs))) (omega arith))
                    (do_pick l 37 3 len pick small refl refl refl (omega arith) refl (
                      do_op l 40 {ys = flag (ltb (2 * suc n) len) ∷ f ∷ suc n ∷ len ∷ ptr ∷ xs}
                        Op.int_lt refl (omega arith)
                        (λ j.
                          ap (λ b. some (vm_at s j (flag b ∷ f ∷ suc n ∷ len ∷ ptr ∷ xs)))
                            (slt_small (2 * suc n) len (omega arith) (omega arith)))
                        rest))))))))

  -- Back to the start, while the middle has not been reached.
  pub goes_on :
      (f n len ptr : ℕ) (xs : List ℕ) {after : Vm}
      → Room s 20 xs
      → n < len
      → len < 2 ^ 61
      → 2 * suc n < len
      → RunsTo s (before (listing s Colon.reverse3 d) 0 (f ∷ suc n ∷ len ∷ ptr ∷ xs)) after
      → RunsTo s (before (listing s Colon.reverse3 d) 26 (f ∷ n ∷ len ∷ ptr ∷ xs)) after
  unfolding body Arrays.reverse3 effect
  goes_on f n len ptr xs room h bound more rest =
      let l = listing s Colon.reverse3 d in
      let yes : ltb (2 * suc n) len ≡ true = ground arith in
      counts_up f n len ptr xs room h bound (
        do_jump_back l 41 44 Op.ifjump refl refl refl (omega arith) (omega arith) (λ j. rw yes refl)
          rest)

  pub stops :
      (f n len ptr : ℕ) (xs : List ℕ)
      → Room s 20 xs
      → n < len
      → len < 2 ^ 61
      → len ≤ 2 * suc n
      → RunsTo s
          (before (listing s Colon.reverse3 d) 26 (f ∷ n ∷ len ∷ ptr ∷ xs))
          (vm_at s 0 (suc n ∷ len ∷ ptr ∷ xs))
  unfolding body Arrays.reverse3 effect
  stops f n len ptr xs room h bound done =
      let l = listing s Colon.reverse3 d in
      let no : ltb (2 * suc n) len ≡ false = ground arith in
      counts_up f n len ptr xs room h bound (
        do_skip l 41 {ys = f ∷ suc n ∷ len ∷ ptr ∷ xs} (neg 44) Op.ifjump refl refl refl
          (omega arith) (λ j. rw no refl) (do_return l 44 refl (omega arith)))
