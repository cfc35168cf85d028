-- ===== src/Interp/Lookup.antt =====
-- lookup of misc/c/c4-interp.c finds the word that a search of the dictionary finds.
use north_arm.Interp.Compare.{byte_string_equals4_lem}
use north_arm.Interp.Agree.{compare-append, compare}
use north_arm.Interp.Effects.{dict_entry_name_lem, dict_entry_next_lem}
use mathlib.Core.Path.{subst}
use mathlib.Core.Option.{some-injective}
use north_arm.Prelude.{
  ℕ, zero, suc, ◌+◌, ◌^◌, ◌<◌, ◌≡◌, refl, Bool, true, false, inl, inr, Bool-cases, Option-cases,
  Option, none, some, List, [], ◌∷◌, ◌==◌, not, flag, arith, if◌then◌else◌,
}
use north_arm.Word64.{word_mod, add64}
use north_arm.C5.Op.{Op}
use north_arm.Forth.Vm.{Vm, ◌>>=◌, effect, shuffle}
use north_arm.Interp.Item.{Colon, num}
use north_arm.Interp.Dictionary
use north_arm.Interp.Body.{body}
use north_arm.Interp.Listing.{
  Setting, vm_at, RunsTo, Room, before, do_op, do_literal, do_call, do_return, do_jump_back,
}
use north_arm.Interp.Reads.{Defined, listing, from_start, look_at, look-append}
use north_arm.Interp.Steps.{
  do_peek, do_pick, do_dig, do_result, do_if_true, do_if_false, do_unless_true, do_unless_false,
}

-- The first of at most `n` entries, from `d` on, whose name agrees with the `len` bytes at `buf` and
-- the one after them; 0, if none does. `none`: a cell cannot be read, or there are more entries.
unfoldable pub search : Setting → List ℕ → (n buf len d : ℕ) → Option ℕ
unfolding compare
search s xs zero buf len d = none
search s xs (suc n) buf len d =
    let later = look_at s xs (add64 d 24) >>= λ link. search s xs n buf len link in
    let tried = look_at s xs (add64 d 0) >>= λ name.
    compare s xs name buf 0 (len + 1) >>= λ same. if same then some d else later in
    if d == 0 then some 0 else tried

none_ne_some : {w : ℕ} → none ≡ some w → ⊥
none_ne_some e = cc

module _ {s : Setting} (pick : Defined s Colon.pick) (small : s.area.limit < word_mod)
    (four : Defined s Colon.byte_string_equals4) (three : Defined s Colon.byte_string_equals3) where
  -- byte-string-equals?/3 keeps nothing of its arguments.
  pub byte_string_equals3_lem :
      (f len sb sa : ℕ) (xs : List ℕ) (r : Bool)
      → Room s 22 xs
      → len + 1 < 2 ^ 63
      → compare s (f ∷ len ∷ sb ∷ sa ∷ xs) sa sb 0 (len + 1) ≡ some r
      → RunsTo s
          (vm_at s (s.addresses.list_at Colon.byte_string_equals3) (f ∷ len ∷ sb ∷ sa ∷ xs))
          (vm_at s 0 (flag r ∷ xs))
  unfolding body Dictionary.byte_string_equals3 effect shuffle
  byte_string_equals3_lem f len sb sa xs r room short same =
      let l = listing s Colon.byte_string_equals3 three in
      from_start s Colon.byte_string_equals3 three (
        do_pick l 0 3 sa pick small refl refl refl (omega arith) refl (
          do_pick l 3 3 sb pick small refl refl refl (omega arith) refl (
            do_pick l 6 3 len pick small refl refl refl (omega arith) refl (
              do_literal l 9 (num 0) refl refl (omega arith) (
                do_call l 11 Colon.byte_string_equals4 refl (omega arith)
                  (byte_string_equals4_lem pick small four _ len sb sa (f ∷ len ∷ sb ∷ sa ∷ xs) r
                    (omega arith) short same)
                  (do_dig l 12 (flag r) f len refl refl refl (omega arith) (
                    do_dig l 15 f (flag r) sb refl refl refl (omega arith) (
                      do_dig l 18 (flag r) f sa refl refl refl (omega arith)
                        (do_return l 21 refl (omega arith))))))))))

module _ {s : Setting} (pick : Defined s Colon.pick) (small : s.area.limit < word_mod)
    (four : Defined s Colon.byte_string_equals4) (three : Defined s Colon.byte_string_equals3)
    (name_word : Defined s Colon.dict_entry_name) (next_word : Defined s Colon.dict_entry_next)
    (d : Defined s Colon.lookup) where
  -- At the end of the dictionary.
  not_found :
      (f len buf : ℕ) (xs : List ℕ)
      → Room s 15 xs
      → RunsTo s
          (before (listing s Colon.lookup d) 0 (f ∷ 0 ∷ len ∷ buf ∷ xs))
          (vm_at s 0 (0 ∷ 0 ∷ xs))
  unfolding body Dictionary.lookup effect shuffle
  not_found f len buf xs room =
      let l = listing s Colon.lookup d in
      do_op l 0 Op.over refl (omega arith) (λ i. refl)
        (do_if_false l 1 12 0 refl refl refl (omega arith) refl (
          do_op l 4 Op.swap refl (omega arith) (λ i. refl)
            (do_op l 5 Op.drop refl (omega arith) (λ i. refl)
              (do_op l 6 Op.swap refl (omega arith) (λ i. refl)
                (do_op l 7 Op.drop refl (omega arith) (λ i. refl)
                  (do_op l 8 Op.swap refl (omega arith) (λ i. refl)
                    (do_op l 9 Op.drop refl (omega arith) (λ i. refl)
                      (do_literal l 10 (num 0) refl refl (omega arith) (
                        do_op l 12 Op.swap refl (omega arith) (λ i. refl)
                          (do_op l 13 Op.over refl (omega arith) (λ i. refl)
                            (do_op l 14 Op.swap refl (omega arith) (λ i. refl)
                              (do_return l 15 refl (omega arith)))))))))))))

  -- An entry: its name is compared with the token.
  compares :
      (f e len buf name : ℕ) (xs : List ℕ) (same : Bool) {after : Vm}
      → Room s 40 xs
      → len + 1 < 2 ^ 63
      → (e == 0) ≡ false
      → look_at s xs (add64 e 0) ≡ some name
      → compare s xs name buf 0 (len + 1) ≡ some same
      → RunsTo s (before (listing s Colon.lookup d) 26 (flag same ∷ f ∷ e ∷ len ∷ buf ∷ xs)) after
      → RunsTo s (before (listing s Colon.lookup d) 0 (f ∷ e ∷ len ∷ buf ∷ xs)) after
  unfolding body Dictionary.lookup effect shuffle
  compares f e len buf name xs same room short live named agree rest =
      let l = listing s Colon.lookup d in
      let args = f ∷ e ∷ len ∷ buf ∷ xs in
      do_op l 0 Op.over refl (omega arith) (λ i. refl)
        (do_if_true l 1 12 e refl refl refl (omega arith) live (omega arith) (
          do_op l 16 Op.over refl (omega arith) (λ i. refl)
            (do_call l 17 Colon.dict_entry_name refl (omega arith)
              (dict_entry_name_lem s.host s.area s.addresses s.memory s.last
                (s.addresses.list_at Colon.dict_entry_name) e _ args name_word.0 (omega arith))
              (do_peek l 18 (add64 e 0) name refl (omega arith)
                (look-append s (f ∷ e ∷ len ∷ buf ∷ []) (add64 e 0) xs (omega arith) named)
                (do_pick l 19 4 buf pick small refl refl refl (omega arith) refl (
                  do_pick l 22 4 len pick small refl refl refl (omega arith) refl (
                    do_call l 25 Colon.byte_string_equals3 refl (omega arith)
                      (byte_string_equals3_lem pick small four three _ len buf name args same
                        (omega arith) short
                        (compare-append s (_ ∷ len ∷ buf ∷ name ∷ f ∷ e ∷ len ∷ buf ∷ []) xs name
                          buf 0 (len + 1) (omega arith) agree))
                      rest)))))))

  -- The entry is the one.
  found :
      (f e len buf : ℕ) (xs : List ℕ)
      → Room s 15 xs
      → RunsTo s
          (before (listing s Colon.lookup d) 26 (1 ∷ f ∷ e ∷ len ∷ buf ∷ xs))
          (vm_at s 0 (1 ∷ e ∷ xs))
  unfolding body Dictionary.lookup effect shuffle
  found f e len buf xs room =
      let l = listing s Colon.lookup d in
      do_unless_true l 26 10 1 refl refl refl (omega arith) refl (
        do_dig l 29 f e len refl refl refl (omega arith) (
          do_dig l 32 e f buf refl refl refl (omega arith)
            (do_result l 35 f 1 refl refl refl refl (omega arith))))

  -- The entry is another: its link takes its place, and the list starts again.
  follows :
      (f e len buf link : ℕ) (xs : List ℕ) {after : Vm}
      → Room s 15 xs
      → look_at s xs (add64 e 24) ≡ some link
      → RunsTo s (before (listing s Colon.lookup d) 0 (f ∷ link ∷ len ∷ buf ∷ xs)) after
      → RunsTo s (before (listing s Colon.lookup d) 26 (0 ∷ f ∷ e ∷ len ∷ buf ∷ xs)) after
  unfolding body Dictionary.lookup effect shuffle
  follows f e len buf link xs room linked rest =
      let l = listing s Colon.lookup d in
      do_unless_false l 26 10 0 refl refl refl (omega arith) refl (omega arith) (
        do_op l 39 Op.swap refl (omega arith) (λ i. refl)
          (do_call l 40 Colon.dict_entry_next refl (omega arith)
            (dict_entry_next_lem s.host s.area s.addresses s.memory s.last
              (s.addresses.list_at Colon.dict_entry_next) e _ (f ∷ len ∷ buf ∷ xs) next_word.0
              (omega arith))
            (do_peek l 41 (add64 e 24) link refl (omega arith)
              (look-append s (f ∷ len ∷ buf ∷ []) (add64 e 24) xs (omega arith) linked)
              (do_op l 42 Op.swap refl (omega arith) (λ i. refl)
                (do_jump_back l 43 46 Op.jumprel refl refl refl (omega arith) (omega arith)
                  (λ i. refl) rest)))))

  -- What the word leaves, for the result of the search.
  with_found :
      (w w' : ℕ) {vm : Vm} {xs : List ℕ}
      → some w ≡ some w'
      → RunsTo s vm (vm_at s 0 (flag (not (w == 0)) ∷ w ∷ xs))
      → RunsTo s vm (vm_at s 0 (flag (not (w' == 0)) ∷ w' ∷ xs))
  with_found w w' {vm} {xs} e run =
      subst (λ z. RunsTo s vm (vm_at s 0 (flag (not (z == 0)) ∷ z ∷ xs))) (some-injective w w' e)
        run

  lookup_loop :
      (n f e len buf w : ℕ) (xs : List ℕ)
      → Room s 40 xs
      → len + 1 < 2 ^ 63
      → search s xs n buf len e ≡ some w
      → RunsTo s
          (before (listing s Colon.lookup d) 0 (f ∷ e ∷ len ∷ buf ∷ xs))
          (vm_at s 0 (flag (not (w == 0)) ∷ w ∷ xs))
  unfolding search
  lookup_loop zero f e len buf w xs room short run = cc
  lookup_loop (suc n) f e len buf w xs room short run = elim (Bool-cases (e == 0)) [
    | inl end ↦ with_found 0 w (rw end at run) (
        subst
          (λ z.
            RunsTo s (before (listing s Colon.lookup d) 0 (f ∷ z ∷ len ∷ buf ∷ xs))
              (vm_at s 0 (0 ∷ 0 ∷ xs)))
          (ground arith) (not_found f len buf xs (omega arith)))
    | inr live ↦ elim (Option-cases (look_at s xs (add64 e 0))) [
      | inl z ↦ absurd (none_ne_some (rw (live, z) at run))
      | inr (name, named) ↦ elim (Option-cases (compare s xs name buf 0 (len + 1))) [
        | inl z ↦ absurd (none_ne_some (rw (live, named, z) at run))
        | inr (true, agree) ↦ with_found e w (rw (live, named, agree) at run) (
            rw live (
              compares f e len buf name xs true room short live named agree
                (found f e len buf xs (omega arith))))
        | inr (false, agree) ↦ elim (Option-cases (look_at s xs (add64 e 24))) [
          | inl z ↦ absurd (none_ne_some (rw (live, named, agree, z) at run))
          | inr (link, linked) ↦ compares f e len buf name xs false room short live named agree (
              follows f e len buf link xs (omega arith) linked (
                lookup_loop n f link len buf w xs room short
                  (rw (live, named, agree, linked) at run)))
        ]
      ]
    ]
  ]

  -- If the reference search of the dictionary from e on, for the len bytes at buf and the one
  -- after them, gives w within n entries, and len + 1 is below 2^63, then lookup of c4-interp.c,
  -- laid out in memory with its callees and 40 cells of the stack to spare, leaves w and whether
  -- it is not 0 in place of its arguments.
  pub lookup_lem :
      (n f e len buf w : ℕ) (xs : List ℕ)
      → Room s 40 xs
      → len + 1 < 2 ^ 63
      → search s xs n buf len e ≡ some w
      → RunsTo s
          (vm_at s (s.addresses.list_at Colon.lookup) (f ∷ e ∷ len ∷ buf ∷ xs))
          (vm_at s 0 (flag (not (w == 0)) ∷ w ∷ xs))
  lookup_lem n f e len buf w xs room short run =
      from_start s Colon.lookup d (lookup_loop n f e len buf w xs room short run)
