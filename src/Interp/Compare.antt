-- ===== src/Interp/Compare.antt =====
-- byte-string-equals?/4 of misc/c/c4-interp.c compares the bytes that it should.
use north_arm.Interp.Agree.{compare, none_ne_bool, sle_small}
use north_arm.Interp.Reads.{from_start, Defined, listing, byte_at, byte-append}
use north_arm.Interp.Steps.{do_if_true, do_if_false, do_peek_byte, do_pick, do_dig, do_result}
use mathlib.Core.Path.{subst}
use mathlib.Core.Option.{some-injective}
use north_arm.Prelude.{
  ℕ, zero, suc, ◌+◌, ◌-◌, ◌^◌, ◌<◌, ◌≤◌, ◌≡◌, refl, ap, Bool, true, false, inl, inr, Bool-cases,
  Option-cases, some, List, [], ◌∷◌, ◌==◌, flag, arith,
}
use north_arm.Word64.{word_mod, add64, sle}
use north_arm.C5.Op.{Op}
use north_arm.Forth.Vm.{Vm, effect, shuffle}
use north_arm.Interp.Item.{Colon, num}
use north_arm.Interp.Dictionary
use north_arm.Interp.Body.{body}
use north_arm.Interp.Listing.{Setting, vm_at, RunsTo, Room, before, do_op, do_literal, do_jump_back}

with_result :
    {s : Setting} {vm : Vm} {xs : List ℕ} {b r : Bool}
    → some b ≡ some r
    → RunsTo s vm (vm_at s 0 (flag b ∷ xs))
    → RunsTo s vm (vm_at s 0 (flag r ∷ xs))
with_result {s} {vm} {xs} {b} {r} e run =
    subst (λ z. RunsTo s vm (vm_at s 0 (flag z ∷ xs))) (some-injective b r e) run

module _ {s : Setting} (pick : Defined s Colon.pick) (small : s.area.limit < word_mod)
    (d : Defined s Colon.byte_string_equals4) where
  -- The arguments go, and the result stays: from item 8 past the last byte, and from item 40 after
  -- bytes that differ.
  over_end :
      (f i len sb sa : ℕ) (xs : List ℕ)
      → Room s 12 xs
      → RunsTo s
          (before (listing s Colon.byte_string_equals4 d) 8 (f ∷ i ∷ len ∷ sb ∷ sa ∷ xs))
          (vm_at s 0 (1 ∷ xs))
  unfolding body Dictionary.byte_string_equals4 effect shuffle
  over_end f i len sb sa xs room =
      let l = listing s Colon.byte_string_equals4 d in
      do_dig l 8 f i len refl refl refl (omega arith) (
        do_dig l 11 i f sb refl refl refl (omega arith) (
          do_dig l 14 f i sa refl refl refl (omega arith) (
            do_op l 17 Op.drop refl (omega arith) (λ i. refl)
              (do_result l 18 f 1 refl refl refl refl (omega arith)))))

  differ :
      (f i len sb sa : ℕ) (xs : List ℕ)
      → Room s 12 xs
      → RunsTo s
          (before (listing s Colon.byte_string_equals4 d) 40 (f ∷ i ∷ len ∷ sb ∷ sa ∷ xs))
          (vm_at s 0 (0 ∷ xs))
  unfolding body Dictionary.byte_string_equals4 effect shuffle
  differ f i len sb sa xs room =
      let l = listing s Colon.byte_string_equals4 d in
      do_dig l 40 f i len refl refl refl (omega arith) (
        do_dig l 43 i f sb refl refl refl (omega arith) (
          do_dig l 46 f i sa refl refl refl (omega arith) (
            do_op l 49 Op.drop refl (omega arith) (λ i. refl)
              (do_result l 50 f 0 refl refl refl refl (omega arith)))))

  -- A round that has bytes to compare comes to item 36 with both of them.
  reads_bytes :
      (f i len sb sa x y : ℕ) (xs : List ℕ) {after : Vm}
      → Room s 15 xs
      → i ≤ len
      → len < 2 ^ 63
      → byte_at s xs (add64 i sa) ≡ some x
      → byte_at s xs (add64 i sb) ≡ some y
      → RunsTo s
          (before
            (listing s Colon.byte_string_equals4 d)
            37
            (flag (x == y) ∷ f ∷ i ∷ len ∷ sb ∷ sa ∷ xs))
          after
      → RunsTo s
          (before (listing s Colon.byte_string_equals4 d) 0 (f ∷ i ∷ len ∷ sb ∷ sa ∷ xs))
          after
  unfolding body Dictionary.byte_string_equals4 effect shuffle
  reads_bytes f i len sb sa x y xs room within short at_a at_b rest =
      let l = listing s Colon.byte_string_equals4 d in
      do_op l 0 Op.over refl (omega arith) (λ i. refl)
        (do_pick l 1 3 len pick small refl refl refl (omega arith) refl (
          do_op l 4 Op.int_lte refl (omega arith) (λ i. refl)
            (do_if_true l 5 14 (flag (sle i len)) refl refl refl (omega arith)
              (rw (sle_small i len (omega arith) short) (ground arith)) (omega arith)
              (do_op l 22 Op.over refl (omega arith) (λ i. refl)
                (do_pick l 23 5 sa pick small refl refl refl (omega arith) refl (
                  do_op l 26 Op.int_add refl (omega arith) (λ j. refl)
                    (do_peek_byte l 27 (add64 i sa) x refl (omega arith)
                      (byte-append s (f ∷ i ∷ len ∷ sb ∷ sa ∷ []) (add64 i sa) xs (omega arith)
                        at_a)
                      (do_pick l 28 2 i pick small refl refl refl (omega arith) refl (
                        do_pick l 31 5 sb pick small refl refl refl (omega arith) refl (
                          do_op l 34 Op.int_add refl (omega arith) (λ j. refl)
                            (do_peek_byte l 35 (add64 i sb) y refl (omega arith)
                              (byte-append s (x ∷ f ∷ i ∷ len ∷ sb ∷ sa ∷ []) (add64 i sb) xs
                                (omega arith) at_b)
                              (do_op l 36 Op.equals refl (omega arith) (λ i. refl) rest))))))))))))

  -- Bytes that agree: the index goes up, and the list starts again.
  again :
      (f i len sb sa : ℕ) (xs : List ℕ) {after : Vm}
      → Room s 15 xs
      → i < word_mod - 1
      → RunsTo s
          (before (listing s Colon.byte_string_equals4 d) 0 (f ∷ suc i ∷ len ∷ sb ∷ sa ∷ xs))
          after
      → RunsTo s
          (before (listing s Colon.byte_string_equals4 d) 37 (1 ∷ f ∷ i ∷ len ∷ sb ∷ sa ∷ xs))
          after
  unfolding body Dictionary.byte_string_equals4 effect shuffle
  again f i len sb sa xs room small_i rest =
      let l = listing s Colon.byte_string_equals4 d in
      do_if_true l 37 14 1 refl refl refl (omega arith) refl (omega arith) (
        do_op l 54 Op.swap refl (omega arith) (λ i. refl)
          (do_literal l 55 (num 1) refl refl (omega arith) (
            do_op l 57 {ys = suc i ∷ f ∷ len ∷ sb ∷ sa ∷ xs} Op.int_add refl (omega arith)
              (λ j. ap (λ v. some (vm_at s j (v ∷ f ∷ len ∷ sb ∷ sa ∷ xs))) (omega arith))
              (do_op l 58 Op.swap refl (omega arith) (λ i. refl)
                (do_jump_back l 59 62 Op.jumprel refl refl refl (omega arith) (omega arith)
                  (λ i. refl) rest)))))

  finished :
      (f i len sb sa : ℕ) (xs : List ℕ)
      → Room s 15 xs
      → i ≡ len + 1
      → len + 1 < 2 ^ 63
      → RunsTo s
          (before (listing s Colon.byte_string_equals4 d) 0 (f ∷ i ∷ len ∷ sb ∷ sa ∷ xs))
          (vm_at s 0 (1 ∷ xs))
  unfolding body Dictionary.byte_string_equals4 effect shuffle
  finished f i len sb sa xs room past short =
      let l = listing s Colon.byte_string_equals4 d in
      do_op l 0 Op.over refl (omega arith) (λ i. refl)
        (do_pick l 1 3 len pick small refl refl refl (omega arith) refl (
          do_op l 4 Op.int_lte refl (omega arith) (λ i. refl)
            (do_if_false l 5 14 (flag (sle i len)) refl refl refl (omega arith)
              (rw (sle_small i len (omega arith) (omega arith)) (ground arith))
              (over_end f i len sb sa xs (omega arith)))))

  mismatch :
      (f i len sb sa : ℕ) (xs : List ℕ)
      → Room s 15 xs
      → RunsTo s
          (before (listing s Colon.byte_string_equals4 d) 37 (0 ∷ f ∷ i ∷ len ∷ sb ∷ sa ∷ xs))
          (vm_at s 0 (0 ∷ xs))
  unfolding body Dictionary.byte_string_equals4 effect shuffle
  mismatch f i len sb sa xs room =
      do_if_false (listing s Colon.byte_string_equals4 d) 37 14 0 refl refl refl (omega arith) refl
        (differ f i len sb sa xs (omega arith))

  equals4_loop :
      (f i len sb sa rest : ℕ) (xs : List ℕ) (r : Bool)
      → Room s 15 xs
      → i + rest ≡ len + 1
      → len + 1 < 2 ^ 63
      → compare s xs sa sb i rest ≡ some r
      → RunsTo s
          (before (listing s Colon.byte_string_equals4 d) 0 (f ∷ i ∷ len ∷ sb ∷ sa ∷ xs))
          (vm_at s 0 (flag r ∷ xs))
  unfolding compare
  equals4_loop f i len sb sa zero xs r room count short same =
      with_result {b = true} same (finished f i len sb sa xs room (omega arith) short)
  equals4_loop f i len sb sa (suc rest) xs r room count short same =
      elim (Option-cases (byte_at s xs (add64 i sa))) [
        | inl z ↦ absurd (none_ne_bool (rw z at same))
        | inr (x, at_a) ↦ elim (Option-cases (byte_at s xs (add64 i sb))) [
          | inl z ↦ absurd (none_ne_bool (rw (at_a, z) at same))
          | inr (y, at_b) ↦
              reads_bytes f i len sb sa x y xs room (omega arith) (omega arith) at_a at_b
                (elim (Bool-cases (x == y)) [
                  | inl equal ↦ rw equal (
                      again f i len sb sa xs room (omega arith) (
                        equals4_loop f (suc i) len sb sa rest xs r room (omega arith) short
                          (rw (at_a, at_b, equal) at same)))
                  | inr other ↦ rw other (
                      with_result {b = false} (rw (at_a, at_b, other) at same)
                        (mismatch f i len sb sa xs room))
                ])
        ]
      ]

  -- If the len + 1 bytes at sa and sb, as far as they matter, can be read, byte-string-equals?/4
  -- of c4-interp.c from index 0, laid out in memory with pick and 15 cells of the stack to
  -- spare, leaves whether they agree in place of its arguments.
  pub byte_string_equals4_lem :
      (f len sb sa : ℕ) (xs : List ℕ) (r : Bool)
      → Room s 15 xs
      → len + 1 < 2 ^ 63
      → compare s xs sa sb 0 (len + 1) ≡ some r
      → RunsTo s
          (vm_at s (s.addresses.list_at Colon.byte_string_equals4) (f ∷ 0 ∷ len ∷ sb ∷ sa ∷ xs))
          (vm_at s 0 (flag r ∷ xs))
  byte_string_equals4_lem f len sb sa xs r room short same =
      from_start s Colon.byte_string_equals4 d
        (equals4_loop f 0 len sb sa (len + 1) xs r room (omega arith) short same)
