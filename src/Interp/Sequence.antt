-- ===== src/Interp/Sequence.antt =====
-- What nseq of misc/c/c4-interp.c leaves on the stack.
use mathlib.Core.Path.{subst}
use north_arm.Prelude.{ℕ, zero, suc, ◌+◌, ◌<◌, ◌≤◌, ◌≡◌, refl, ap, some, List, ◌∷◌, length, arith}
use north_arm.Word64.{word_mod}
use north_arm.C5.Op.{Op}
use north_arm.Forth.Vm.{Vm, effect, shuffle}
use north_arm.Interp.Item.{Colon, num}
use north_arm.Interp.Body.{body}
use north_arm.Interp.Arrays
use north_arm.Interp.Listing.{
  Setting, vm_at, RunsTo, Room, before, do_op, do_literal, do_return, do_jump_back,
}
use north_arm.Interp.Reads.{Defined, listing, from_start}
use north_arm.Interp.Steps.{do_pick, do_if_true, do_if_false}

-- 0, 1 and so on up to n - 1, the last on top.
abbrev pub sequence : ℕ → List ℕ → List ℕ
sequence zero xs = xs
sequence (suc n) xs = n ∷ sequence n xs

length-sequence : (n : ℕ) (xs : List ℕ) → length (sequence n xs) ≡ n + length xs
length-sequence zero xs = omega arith
length-sequence (suc n) xs = omega (arith, length-sequence n xs)

module _ {s : Setting} (pick : Defined s Colon.pick) (small : s.area.limit < word_mod)
    (d : Defined s Colon.nseq) where
  -- The count goes down, and its copy decides.
  counts :
      (f r i : ℕ) (ys : List ℕ) {after : Vm}
      → Room s 9 ys
      → suc r < word_mod
      → RunsTo s (before (listing s Colon.nseq d) 9 (r ∷ f ∷ r ∷ i ∷ ys)) after
      → RunsTo s (before (listing s Colon.nseq d) 3 (f ∷ suc r ∷ i ∷ ys)) after
  unfolding body Arrays.nseq effect shuffle
  counts f r i ys room bound rest =
      let l = listing s Colon.nseq d in
      do_op l 3 Op.swap refl (omega arith) (λ j. refl)
        (do_literal l 4 (num 1) refl refl (omega arith) (
          do_op l 6 {ys = r ∷ f ∷ i ∷ ys} Op.int_sub refl (omega arith)
            (λ j. ap (λ v. some (vm_at s j (v ∷ f ∷ i ∷ ys))) (omega arith))
            (do_op l 7 Op.swap refl (omega arith) (λ j. refl)
              (do_op l 8 Op.over refl (omega arith) (λ j. refl) rest))))

  -- The next number is put under the count.
  extends :
      (f r i : ℕ) (ys : List ℕ) {after : Vm}
      → Room s 12 ys
      → suc i < word_mod
      → RunsTo s (before (listing s Colon.nseq d) 3 (f ∷ r ∷ suc i ∷ i ∷ ys)) after
      → RunsTo s (before (listing s Colon.nseq d) 15 (f ∷ r ∷ i ∷ ys)) after
  unfolding body Arrays.nseq effect shuffle
  extends f r i ys room bound rest =
      let l = listing s Colon.nseq d in
      do_pick l 15 2 i pick small refl refl refl (omega arith) refl (
        do_literal l 18 (num 1) refl refl (omega arith) (
          do_op l 20 {ys = suc i ∷ f ∷ r ∷ i ∷ ys} Op.int_add refl (omega arith)
            (λ j. ap (λ v. some (vm_at s j (v ∷ f ∷ r ∷ i ∷ ys))) (omega arith))
            (do_op l 21 Op.roll refl (omega arith) (λ j. refl)
              (do_jump_back l 22 22 Op.jumprel refl refl refl (omega arith) (omega arith)
                (λ j. refl) rest))))

  nseq_loop :
      (r i f : ℕ) (xs : List ℕ)
      → Room s (r + i + 12) xs
      → RunsTo s
          (before (listing s Colon.nseq d) 3 (f ∷ suc r ∷ i ∷ sequence i xs))
          (vm_at s 0 (sequence (suc (i + r)) xs))
  unfolding body Arrays.nseq effect shuffle
  nseq_loop zero i f xs room =
      let l = listing s Colon.nseq d in
      let size = length-sequence i xs in
      counts f 0 i (sequence i xs) (omega (arith, size)) (omega arith) (
        do_if_false l 9 3 0 refl refl refl (omega (arith, size)) refl (
          do_op l 12 Op.swap refl (omega (arith, size)) (λ j. refl)
            (do_op l 13 Op.drop refl (omega (arith, size)) (λ j. refl)
              (subst
                (λ k.
                  RunsTo s (before l 14 (f ∷ i ∷ sequence i xs)) (vm_at s 0 (sequence (suc k) xs)))
                (omega arith) (do_return l 14 refl (omega (arith, size)))))))
  nseq_loop (suc r) i f xs room =
      let l = listing s Colon.nseq d in
      let size = length-sequence i xs in
      counts f (suc r) i (sequence i xs) (omega (arith, size)) (omega arith) (
        do_if_true l 9 3 (suc r) refl refl refl (omega (arith, size)) (ground arith) (omega arith) (
          extends f (suc r) i (sequence i xs) (omega (arith, size)) (omega arith) (
            subst
              (λ k.
                RunsTo s (before l 3 (f ∷ suc r ∷ suc i ∷ sequence (suc i) xs))
                  (vm_at s 0 (sequence (suc k) xs)))
              (omega arith) (nseq_loop r (suc i) f xs (omega arith)))))

  -- nseq of c4-interp.c on a number n from 1 up, laid out in memory with pick and n + 12 cells
  -- of the stack to spare below 2^64, ends with the numbers 0 to n - 1 in its place, the last on
  -- top.
  pub nseq_lem :
      (f n : ℕ) (xs : List ℕ)
      → Room s (n + 12) xs
      → 1 ≤ n
      → RunsTo s (vm_at s (s.addresses.list_at Colon.nseq) (f ∷ n ∷ xs)) (vm_at s 0 (sequence n xs))
  unfolding body Arrays.nseq effect shuffle
  nseq_lem f zero xs room some_left = absurd (omega arith)
  nseq_lem f (suc r) xs room some_left =
      let l = listing s Colon.nseq d in
      from_start s Colon.nseq d (
        do_literal l 0 (num 0) refl refl (omega arith) (
          do_op l 2 Op.roll refl (omega arith) (λ j. refl)
            (subst
              (λ k. RunsTo s (before l 3 (f ∷ suc r ∷ 0 ∷ xs)) (vm_at s 0 (sequence (suc k) xs)))
              (omega arith) (nseq_loop r 0 f xs (omega arith)))))
