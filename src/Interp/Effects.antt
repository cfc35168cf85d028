-- ===== src/Interp/Effects.antt =====
-- What short words of misc/c/c4-interp.c do to the stack, as runs of the abstract machine. The cell
-- on top of the stack at the start is the frame, which return0 drops.
use north_arm.Prelude.{
  ℕ, zero, suc, ◌+◌, ◌-◌, ◌*◌, ◌<◌, ◌≤◌, ◌≡◌, refl, Option, some, List, [], ◌∷◌, length, get_elem?,
  ◌==◌, flag, arith,
}
use north_arm.Prelude.Int.{pos}
use north_arm.Word64.{word_mod, add64, mul64}
use north_arm.C5.Op.{Op, Host}
use north_arm.Forth.Vm.{Area, Vm, effect, shuffle, look, find, top_of}
use north_arm.Interp.Item.{Item, Const, op, num}
use north_arm.Interp.Values.{const_value}
use north_arm.Interp.Input
use north_arm.Interp.Dictionary
use north_arm.Interp.Arrays
use north_arm.Interp.Laid.{
  Addresses, Laid, Executes, Spare, state, step_op, step_literal, step_constant, step_return,
}

pub elem-lt : (xs : List ℕ) (k : ℕ) {v : ℕ} → get_elem? xs k ≡ some v → k < length xs
elem-lt [] k e = cc
elem-lt (x ∷ xs) zero e = omega arith
elem-lt (x ∷ xs) (suc k) e = omega (arith, elem-lt xs k e)

-- The address of the cell `k` places under the top of a stack.
pub find-elem :
    (area : Area) (xs : List ℕ) (k a : ℕ) {v : ℕ}
    → get_elem? xs k ≡ some v
    → 8 * length xs ≤ area.limit
    → a ≡ top_of area xs + 8 * k
    → find area xs a ≡ some v
unfolding find
find-elem area [] k a e h same = cc
find-elem area (x ∷ xs) zero a e h same = ground arith
find-elem area (x ∷ xs) (suc k) a e h same =
    ground (arith, find-elem area xs k a e (omega arith) (omega arith))

-- The address that pick works out.
pick_at :
    (k n limit : ℕ)
    → limit < word_mod
    → 8 * suc (suc n) ≤ limit
    → k < n
    → add64 (mul64 (add64 k 2) 8) (limit - 8 * suc (suc n)) ≡ limit - 8 * n + 8 * k
pick_at k n limit small room in_range = omega arith

module _ (host : Host) (area : Area) (addresses : Addresses) (memory : ℕ → Option ℕ)
    (last : ℕ) where
  abbrev at : ℕ → List ℕ → Vm
  at i xs = state host area addresses memory last i xs

  -- A list that works on the cell below the frame, with a number and one word.
  abbrev unary : ℕ → Op → List Item
  unary k o = op Op.swap ∷ op Op.literal ∷ num k ∷ op o ∷ op Op.swap ∷ op Op.return0 ∷ []

  unary_runs :
      (b k n v f : ℕ) (o : Op) (xs : List ℕ)
      → Laid host area addresses memory b (unary k o)
      → Spare host area addresses 4 xs
      → ((i : ℕ) → effect area o (at i (k ∷ n ∷ f ∷ xs)) ≡ some (at i (v ∷ f ∷ xs)))
      → Executes host area addresses (at b (f ∷ n ∷ xs)) (at 0 (v ∷ xs))
  unfolding effect shuffle
  unary_runs b k n v f o xs laid room does =
      let (h0, (h1, (h2, (h3, (h4, (h5, _)))))) = laid in
      step_op host area addresses memory last Op.swap h0 (omega arith) refl (
        step_literal host area addresses memory last (num k) h1 h2 (omega arith) (
          step_op host area addresses memory last o h3 (omega arith) (does _) (
            step_op host area addresses memory last Op.swap h4 (omega arith) refl
              (step_return host area addresses memory last h5 (omega arith)))))

  -- is-space? of c4-interp.c, laid out in memory with four cells of the stack to spare, replaces
  -- the cell below the frame by whether it is 32.
  pub is_space_lem :
      (b n f : ℕ) (xs : List ℕ)
      → Laid host area addresses memory b Input.is_space
      → Spare host area addresses 4 xs
      → Executes host area addresses (at b (f ∷ n ∷ xs)) (at 0 (flag (n == 32) ∷ xs))
  unfolding Input.is_space effect shuffle
  is_space_lem b n f xs laid room =
      unary_runs b 32 n (flag (n == 32)) f Op.equals xs laid room (λ i. refl)

  -- is-newline? of c4-interp.c, laid out in memory with four cells of the stack to spare,
  -- replaces the cell below the frame by whether it is 10.
  pub is_newline_lem :
      (b n f : ℕ) (xs : List ℕ)
      → Laid host area addresses memory b Input.is_newline
      → Spare host area addresses 4 xs
      → Executes host area addresses (at b (f ∷ n ∷ xs)) (at 0 (flag (n == 10) ∷ xs))
  unfolding Input.is_newline effect shuffle
  is_newline_lem b n f xs laid room =
      unary_runs b 10 n (flag (n == 10)) f Op.equals xs laid room (λ i. refl)

  -- dict-entry-name of c4-interp.c, laid out in memory with four cells of the stack to spare,
  -- replaces the word below the frame by its address plus 0.
  pub dict_entry_name_lem :
      (b w f : ℕ) (xs : List ℕ)
      → Laid host area addresses memory b Dictionary.dict_entry_name
      → Spare host area addresses 4 xs
      → Executes host area addresses (at b (f ∷ w ∷ xs)) (at 0 (add64 w 0 ∷ xs))
  unfolding Dictionary.dict_entry_name effect shuffle
  dict_entry_name_lem b w f xs laid room =
      unary_runs b 0 w (add64 w 0) f Op.int_add xs laid room (λ i. refl)

  -- dict-entry-code of c4-interp.c, laid out in memory with four cells of the stack to spare,
  -- replaces the word below the frame by its address plus 8.
  pub dict_entry_code_lem :
      (b w f : ℕ) (xs : List ℕ)
      → Laid host area addresses memory b Dictionary.dict_entry_code
      → Spare host area addresses 4 xs
      → Executes host area addresses (at b (f ∷ w ∷ xs)) (at 0 (add64 w 8 ∷ xs))
  unfolding Dictionary.dict_entry_code effect shuffle
  dict_entry_code_lem b w f xs laid room =
      unary_runs b 8 w (add64 w 8) f Op.int_add xs laid room (λ i. refl)

  -- dict-entry-data of c4-interp.c, laid out in memory with four cells of the stack to spare,
  -- replaces the word below the frame by its address plus 16.
  pub dict_entry_data_lem :
      (b w f : ℕ) (xs : List ℕ)
      → Laid host area addresses memory b Dictionary.dict_entry_data
      → Spare host area addresses 4 xs
      → Executes host area addresses (at b (f ∷ w ∷ xs)) (at 0 (add64 w 16 ∷ xs))
  unfolding Dictionary.dict_entry_data effect shuffle
  dict_entry_data_lem b w f xs laid room =
      unary_runs b 16 w (add64 w 16) f Op.int_add xs laid room (λ i. refl)

  -- dict-entry-next of c4-interp.c, laid out in memory with four cells of the stack to spare,
  -- replaces the word below the frame by its address plus 24.
  pub dict_entry_next_lem :
      (b w f : ℕ) (xs : List ℕ)
      → Laid host area addresses memory b Dictionary.dict_entry_next
      → Spare host area addresses 4 xs
      → Executes host area addresses (at b (f ∷ w ∷ xs)) (at 0 (add64 w 24 ∷ xs))
  unfolding Dictionary.dict_entry_next effect shuffle
  dict_entry_next_lem b w f xs laid room =
      unary_runs b 24 w (add64 w 24) f Op.int_add xs laid room (λ i. refl)

  -- The cell that pick reads.
  peeked :
      (k v f : ℕ) (xs : List ℕ)
      → Spare host area addresses 5 xs
      → area.limit < word_mod
      → get_elem? xs k ≡ some v
      → (i : ℕ)
      → let p = add64 (mul64 (add64 k 2) 8) (area.limit - 8 * suc (suc (length xs))) in
        effect area Op.peek (at i (p ∷ f ∷ xs)) ≡ some (at i (v ∷ f ∷ xs))
  unfolding effect look
  peeked k v f xs room small there i =
      let p = add64 (mul64 (add64 k 2) 8) (area.limit - 8 * suc (suc (length xs))) in
      let in_range = elem-lt xs k there in
      let found = pick_at k (length xs) area.limit small (omega arith) in_range in
      ground (arith, find-elem area (p ∷ f ∷ xs) (suc (suc k)) p there (omega arith) (omega arith))

  -- pick of c4-interp.c, laid out in memory with five cells of the stack to spare and the stack
  -- below 2^64, replaces the number k below the frame by the cell k places under it.
  pub pick_lem :
      (b k v f : ℕ) (xs : List ℕ)
      → Laid host area addresses memory b Arrays.pick
      → Spare host area addresses 5 xs
      → area.limit < word_mod
      → get_elem? xs k ≡ some v
      → Executes host area addresses (at b (f ∷ k ∷ xs)) (at 0 (v ∷ xs))
  unfolding Arrays.pick effect shuffle look const_value
  pick_lem b k v f xs laid room small there =
      let (h0, (h1, (h2, (h3, (h4, (h5, (h6, (h7, (h8, (h9, (h10, _))))))))))) = laid in
      step_op host area addresses memory last Op.swap h0 (omega arith) refl (
        step_literal host area addresses memory last (num 2) h1 h2 (omega arith) (
          step_op host area addresses memory last Op.int_add h3 (omega arith) refl (
            step_constant host area addresses memory last Const.cell_size (pos 8) h4 refl
              (omega arith)
              (step_op host area addresses memory last Op.int_mul h5 (omega arith) refl (
                step_op host area addresses memory last Op.here h6 (omega arith) refl (
                  step_op host area addresses memory last Op.int_add h7 (omega arith) refl (
                    step_op host area addresses memory last {ys = v ∷ f ∷ xs} Op.peek h8
                      (omega arith) (peeked k v f xs room small there _)
                      (step_op host area addresses memory last Op.swap h9 (omega arith) refl
                        (step_return host area addresses memory last h10 (omega arith))))))))))
