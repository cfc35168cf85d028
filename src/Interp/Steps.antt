-- ===== src/Interp/Steps.antt =====
-- Steps of word lists that read the stack or memory, calls of pick, and tests.
use north_arm.Interp.Reads.{Defined, look_at, byte_at, byte_cell, look-push}
use north_arm.Prelude.{
  ℕ, suc, ◌+◌, ◌-◌, ◌%◌, ◌<◌, ◌≤◌, ◌≡◌, refl, ap, true, false, some, List, ◌∷◌, length, get_elem?,
  ◌==◌, arith,
}
use north_arm.Word64.{word_mod}
use north_arm.C5.Op.{Op}
use north_arm.Forth.Vm.{Vm, effect, shuffle}
use north_arm.Interp.Item.{Item, Colon, op, word, num}
use north_arm.Interp.Body.{body}
use north_arm.Interp.Effects.{pick_lem}
use north_arm.Interp.Listing.{
  Setting, vm_at, RunsTo, Room, Listing, before, do_op, do_literal, do_call, do_return, do_skip,
  do_jump,
}

module _ {s : Setting} {items : List Item} (l : Listing s items) where
  pub do_peek :
      (k p v : ℕ) {xs : List ℕ} {after : Vm}
      → get_elem? items k ≡ some (op Op.peek)
      → Room s 2 xs
      → look_at s xs p ≡ some v
      → RunsTo s (before l (suc k) (v ∷ xs)) after
      → RunsTo s (before l k (p ∷ xs)) after
  unfolding effect
  do_peek k p v {xs} e room found rest =
      do_op l k Op.peek e (omega arith) (λ i. rw (look-push s i p p xs (omega arith) found) refl)
        rest

  pub do_peek_byte :
      (k p v : ℕ) {xs : List ℕ} {after : Vm}
      → get_elem? items k ≡ some (op Op.peek_byte)
      → Room s 2 xs
      → byte_at s xs p ≡ some v
      → RunsTo s (before l (suc k) (v ∷ xs)) after
      → RunsTo s (before l k (p ∷ xs)) after
  unfolding effect
  do_peek_byte k p v {xs} e room found rest =
      let (c, cell, is) = byte_cell s p xs found in
      do_op l k {ys = v ∷ xs} Op.peek_byte e (omega arith)
        (λ i.
          rw (look-push s i p (p - p % 8) xs (omega arith) cell)
            (ap (λ b. some (vm_at s i (b ∷ xs))) is))
        rest

  -- A number and pick.
  pub do_pick :
      (k n v : ℕ) {xs : List ℕ} {after : Vm}
      → Defined s Colon.pick
      → s.area.limit < word_mod
      → get_elem? items k ≡ some (op Op.literal)
      → get_elem? items (suc k) ≡ some (num n)
      → get_elem? items (suc (suc k)) ≡ some (word Colon.pick)
      → Room s 6 xs
      → get_elem? xs n ≡ some v
      → RunsTo s (before l (suc (suc (suc k))) (v ∷ xs)) after
      → RunsTo s (before l k xs) after
  unfolding body
  do_pick k n v {xs} d small e e1 e2 room there rest = do_literal l k (num n) e e1 (omega arith) (
      do_call l (suc (suc k)) Colon.pick e2 (omega arith)
        (pick_lem s.host s.area s.addresses s.memory s.last (s.addresses.list_at Colon.pick) n v _
          xs d.0 (omega arith) small there)
        rest)

  -- roll, swap and drop take away the third cell, and exchange the two above it.
  pub do_dig :
      (k a b c : ℕ) {xs : List ℕ} {after : Vm}
      → get_elem? items k ≡ some (op Op.roll)
      → get_elem? items (suc k) ≡ some (op Op.swap)
      → get_elem? items (suc (suc k)) ≡ some (op Op.drop)
      → Room s 1 (a ∷ b ∷ c ∷ xs)
      → RunsTo s (before l (suc (suc (suc k))) (b ∷ a ∷ xs)) after
      → RunsTo s (before l k (a ∷ b ∷ c ∷ xs)) after
  unfolding effect shuffle
  do_dig k a b c e e1 e2 room rest =
      do_op l k Op.roll e (omega arith) (λ i. refl)
        (do_op l (suc k) Op.swap e1 (omega arith) (λ i. refl)
          (do_op l (suc (suc k)) Op.drop e2 (omega arith) (λ i. refl) rest))

  -- The result goes under the frame, and the word returns.
  pub do_result :
      (k f v : ℕ) {xs : List ℕ}
      → get_elem? items k ≡ some (op Op.literal)
      → get_elem? items (suc k) ≡ some (num v)
      → get_elem? items (suc (suc k)) ≡ some (op Op.swap)
      → get_elem? items (suc (suc (suc k))) ≡ some (op Op.return0)
      → Room s 3 xs
      → RunsTo s (before l k (f ∷ xs)) (vm_at s 0 (v ∷ xs))
  unfolding effect shuffle
  do_result k f v e e1 e2 e3 room = do_literal l k (num v) e e1 (omega arith) (
      do_op l (suc (suc k)) Op.swap e2 (omega arith) (λ i. refl)
        (do_return l (suc (suc (suc k))) e3 (omega arith)))

  -- ifjump on a cell that is not zero.
  pub do_if_true :
      (k n c : ℕ) {xs : List ℕ} {after : Vm}
      → get_elem? items k ≡ some (op Op.literal)
      → get_elem? items (suc k) ≡ some (num n)
      → get_elem? items (suc (suc k)) ≡ some (op Op.ifjump)
      → Room s 3 xs
      → (c == 0) ≡ false
      → k + 3 + n ≤ length items
      → RunsTo s (before l (k + 3 + n) xs) after
      → RunsTo s (before l k (c ∷ xs)) after
  unfolding effect
  do_if_true k n c {xs} e e1 e2 room is within rest =
      do_jump l k {ys = xs} n Op.ifjump e e1 e2 (omega arith) within (λ i. rw is refl) rest

  -- ifjump on zero.
  pub do_if_false :
      (k n c : ℕ) {xs : List ℕ} {after : Vm}
      → get_elem? items k ≡ some (op Op.literal)
      → get_elem? items (suc k) ≡ some (num n)
      → get_elem? items (suc (suc k)) ≡ some (op Op.ifjump)
      → Room s 3 xs
      → (c == 0) ≡ true
      → RunsTo s (before l (k + 3) xs) after
      → RunsTo s (before l k (c ∷ xs)) after
  unfolding effect
  do_if_false k n c {xs} e e1 e2 room is rest =
      do_skip l k {ys = xs} (num n) Op.ifjump e e1 e2 (omega arith) (λ i. rw is refl) rest

  -- unlessjump on a cell that is not zero.
  pub do_unless_true :
      (k n c : ℕ) {xs : List ℕ} {after : Vm}
      → get_elem? items k ≡ some (op Op.literal)
      → get_elem? items (suc k) ≡ some (num n)
      → get_elem? items (suc (suc k)) ≡ some (op Op.unlessjump)
      → Room s 3 xs
      → (c == 0) ≡ false
      → RunsTo s (before l (k + 3) xs) after
      → RunsTo s (before l k (c ∷ xs)) after
  unfolding effect
  do_unless_true k n c {xs} e e1 e2 room is rest =
      do_skip l k {ys = xs} (num n) Op.unlessjump e e1 e2 (omega arith) (λ i. rw is refl) rest

  -- unlessjump on zero.
  pub do_unless_false :
      (k n c : ℕ) {xs : List ℕ} {after : Vm}
      → get_elem? items k ≡ some (op Op.literal)
      → get_elem? items (suc k) ≡ some (num n)
      → get_elem? items (suc (suc k)) ≡ some (op Op.unlessjump)
      → Room s 3 xs
      → (c == 0) ≡ true
      → k + 3 + n ≤ length items
      → RunsTo s (before l (k + 3 + n) xs) after
      → RunsTo s (before l k (c ∷ xs)) after
  unfolding effect
  do_unless_false k n c {xs} e e1 e2 room is within rest =
      do_jump l k {ys = xs} n Op.unlessjump e e1 e2 (omega arith) within (λ i. rw is refl) rest
