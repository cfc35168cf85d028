-- ===== src/Interp/Reverse/Whole.antt =====
-- reverse of misc/c/c4-interp.c on an array that lies on the stack.
use mathlib.Core.List.{reverse}
use north_arm.Prelude.{ℕ, ◌<◌, ◌≡◌, refl, List, ◌∷◌, ◌++◌, length, length-append, arith}
use north_arm.Word64.{word_mod}
use north_arm.C5.Op.{Op}
use north_arm.Forth.Vm.{effect, shuffle, top_of}
use north_arm.Interp.Item.{Colon, num}
use north_arm.Interp.Body.{body}
use north_arm.Interp.Arrays
use north_arm.Interp.Listing.{Setting, vm_at, RunsTo, Room, do_op, do_literal, do_call, do_return}
use north_arm.Interp.Reads.{Defined, listing, from_start}
use north_arm.Interp.Places.{place}
use north_arm.Interp.Turned.{Turned-reverse, Turned-length}
use north_arm.Interp.Reverse.Loop.{turns}

module _ {s : Setting} (pick : Defined s Colon.pick) (small : s.area.limit < word_mod)
    (swap : Defined s Colon.swap_places) (turn : Defined s Colon.reverse3)
    (d : Defined s Colon.reverse) where
  -- reverse of c4-interp.c on an array of one cell or more that lies on the stack, anywhere
  -- below its arguments, laid out in memory with its callees and 24 cells of the stack to spare
  -- below 2^64, ends with the array reversed, its arguments gone and every other cell as it was.
  pub reverse_lem :
      (f x ptr : ℕ) (pre w post : List ℕ)
      → let array = x ∷ w in
        let xs = pre ++ (array ++ post) in
        Room s 24 xs
        → ptr ≡ place s xs (length pre)
        → RunsTo s
            (vm_at s (s.addresses.list_at Colon.reverse) (f ∷ length array ∷ ptr ∷ xs))
            (vm_at s 0 (pre ++ (reverse array ++ post)))
  unfolding body Arrays.reverse effect shuffle
  reverse_lem f x ptr pre w post room at =
      let l = listing s Colon.reverse d in
      let array = x ∷ w in
      let xs = pre ++ (array ++ post) in
      let ys = pre ++ (reverse array ++ post) in
      let len = length array in
      let size = length-append pre (array ++ post) in
      let size' = length-append array post in
      let turned = Turned-reverse (length w) x w (omega arith) in
      let same : length ys ≡ length xs = omega (
        arith,
        size,
        size',
        Turned-length turned,
        length-append pre (reverse array ++ post),
        length-append (reverse array) post,
      ) in
      let (k, run) =
        turns s pick small swap turn (top_of s.area (0 ∷ len ∷ ptr ∷ f ∷ xs)) len ptr
          (omega (arith, size, size')) (omega (arith, at, size, size')) turned 0 (f ∷ pre) post
          (f ∷ xs) (f ∷ ys) (omega arith) (omega arith) (omega (arith, at)) refl refl in
      from_start s Colon.reverse d (
        do_op l 0 Op.roll refl (omega arith) (λ j. refl)
          (do_literal l 1 (num 0) refl refl (omega arith) (
            do_call l 3 Colon.reverse3 refl (omega arith) (from_start s Colon.reverse3 turn run) (
              do_op l 4 Op.drop refl (omega (arith, same)) (λ j. refl)
                (do_op l 5 Op.drop refl (omega (arith, same)) (λ j. refl)
                  (do_op l 6 Op.drop refl (omega (arith, same)) (λ j. refl)
                    (do_return l 7 refl (omega (arith, same)))))))))
