-- ===== src/Interp/Listing.antt =====
-- Steps of the abstract machine by the number of the item in a word list of misc/c/c4-interp.c.
use mathlib.Core.Path.{subst}
use mathlib.Core.Option.{some-injective}
use north_arm.Prelude.{
  ℕ, zero, suc, ◌+◌, ◌-◌, ◌*◌, ◌<◌, ◌≤◌, ◌≡◌, sym, Option, some, List, [], ◌∷◌, length, get_elem?,
  arith,
}
use north_arm.Word64.{word_mod, of_ℤ, add64, mul64}
use north_arm.C5.Op.{Op, Host}
use north_arm.Forth.Vm.{Area, Vm, effect, top_of}
use north_arm.Forth.View.{vm_of}
use north_arm.Prelude.Int.{ℤ}
use north_arm.Interp.Values.{const_value, number}
use north_arm.Interp.Item.{Item, Colon, Const, op, word, constant, num, neg}
use north_arm.Interp.Laid.{
  Addresses, Holds, Laid, Executes, Spare, cell_of, step_op, step_literal, step_constant,
  step_return, step_call,
}

-- The linked program, and the parts of the state that the words here leave alone.
pub record Setting : Type 0 where
  pub host : Host
  pub area : Area
  pub addresses : Addresses
  pub memory : ℕ → Option ℕ
  pub last : ℕ

abbrev pub vm_at : Setting → ℕ → List ℕ → Vm
vm_at s i xs = vm_of i xs s.memory s.last

abbrev pub RunsTo : Setting → Vm → Vm → Type 0
RunsTo s = Executes s.host s.area s.addresses

abbrev pub Room : Setting → ℕ → List ℕ → Type 0
Room s = Spare s.host s.area s.addresses

-- A list that lies at `base`.
pub record Listing (s : Setting) (items : List Item) : Type 0 where
  pub base : ℕ
  pub laid : Laid s.host s.area s.addresses s.memory base items
  pub bound : base + 8 * length items < word_mod

Laid-at :
    (s : Setting) (items : List Item) (b k : ℕ) {x : Item}
    → Laid s.host s.area s.addresses s.memory b items
    → get_elem? items k ≡ some x
    → Holds s.host s.area s.addresses s.memory (b + 8 * k) x
Laid-at s [] b k laid e = cc
Laid-at s (y ∷ items) b zero {x} laid e =
    subst (λ a. Holds s.host s.area s.addresses s.memory a x) (omega arith)
      (subst (λ z. Holds s.host s.area s.addresses s.memory b z) (some-injective y x e) laid.0)
Laid-at s (y ∷ items) b (suc k) {x} laid e =
    subst (λ a. Holds s.host s.area s.addresses s.memory a x) (omega arith)
      (Laid-at s items (b + 8) k laid.1 e)

elem-lt :
    {A : Type 0} (items : List A) (k : ℕ) {x : A} → get_elem? items k ≡ some x → k < length items
elem-lt [] k e = cc
elem-lt (y ∷ items) zero e = omega arith
elem-lt (y ∷ items) (suc k) e = omega (arith, elem-lt items k e)

-- Where a jump over `n` cells goes, from the item after it.
forward :
    (b k n : ℕ)
    → b + 8 * (k + 3 + n) < word_mod
    → add64 (b + 8 * suc (suc k) + 8) (mul64 8 n) ≡ b + 8 * (k + 3 + n)
forward b k n h = omega arith

backward :
    (b k n : ℕ)
    → b + 8 * (k + 3) < word_mod
    → n ≤ k + 3
    → add64 (b + 8 * suc (suc k) + 8) (mul64 8 (word_mod - n)) ≡ b + 8 * (k + 3 - n)
backward b k n h back = omega arith

module _ {s : Setting} {items : List Item} (l : Listing s items) where
  -- The state before item `k`.
  abbrev pub before : ℕ → List ℕ → Vm
  before k xs = vm_at s (l.base + 8 * k) xs

  item_at :
      (k : ℕ) {x : Item}
      → get_elem? items k ≡ some x
      → Holds s.host s.area s.addresses s.memory (l.base + 8 * k) x
  item_at k e = Laid-at s items l.base k l.laid e

  moved :
      {i j : ℕ} {ys : List ℕ} {after : Vm}
      → j ≡ i
      → RunsTo s (vm_at s j ys) after
      → RunsTo s (vm_at s i ys) after
  moved {i} {j} {ys} {after} e r = subst (λ a. RunsTo s (vm_at s a ys) after) e r

  pub do_op :
      (k : ℕ) {xs ys : List ℕ} {after : Vm} (o : Op)
      → get_elem? items k ≡ some (op o)
      → Room s 1 xs
      → ((i : ℕ) → effect s.area o (vm_at s i xs) ≡ some (vm_at s i ys))
      → RunsTo s (before (suc k) ys) after
      → RunsTo s (before k xs) after
  do_op k o e room does rest =
      step_op s.host s.area s.addresses s.memory s.last o (item_at k e) room (does _)
        (moved (omega arith) rest)

  pub do_literal :
      (k : ℕ) {xs : List ℕ} {after : Vm} (x : Item)
      → get_elem? items k ≡ some (op Op.literal)
      → get_elem? items (suc k) ≡ some x
      → Room s 1 xs
      → RunsTo s (before (suc (suc k)) (cell_of s.addresses x ∷ xs)) after
      → RunsTo s (before k xs) after
  do_literal k x e e1 room rest =
      step_literal s.host s.area s.addresses s.memory s.last x (item_at k e)
        (subst (λ a. Holds s.host s.area s.addresses s.memory a x) (omega arith)
          (item_at (suc k) e1))
        room (moved (omega arith) rest)

  pub do_constant :
      (k : ℕ) {xs : List ℕ} {after : Vm} (c : Const) (z : ℤ)
      → get_elem? items k ≡ some (constant c)
      → const_value c ≡ number z
      → Room s 2 xs
      → RunsTo s (before (suc k) (of_ℤ z ∷ xs)) after
      → RunsTo s (before k xs) after
  do_constant k c z e value room rest =
      step_constant s.host s.area s.addresses s.memory s.last c z (item_at k e) value room
        (moved (omega arith) rest)

  pub do_call :
      (k : ℕ) {xs ys : List ℕ} {after : Vm} (c : Colon)
      → get_elem? items k ≡ some (word c)
      → Room s 1 xs
      → RunsTo s (vm_at s (s.addresses.list_at c) (top_of s.area xs ∷ xs)) (vm_at s 0 ys)
      → RunsTo s (before (suc k) ys) after
      → RunsTo s (before k xs) after
  do_call k c e room callee rest =
      step_call s.host s.area s.addresses s.memory s.last c (item_at k e) room callee
        (moved (omega arith) rest)

  pub do_return :
      (k : ℕ) {f : ℕ} {xs : List ℕ}
      → get_elem? items k ≡ some (op Op.return0)
      → Room s 1 (f ∷ xs)
      → RunsTo s (before k (f ∷ xs)) (vm_at s 0 xs)
  do_return k e room = step_return s.host s.area s.addresses s.memory s.last (item_at k e) room

  -- A literal and a jump that is not taken.
  pub do_skip :
      (k : ℕ) {xs ys : List ℕ} {after : Vm} (x : Item) (o : Op)
      → get_elem? items k ≡ some (op Op.literal)
      → get_elem? items (suc k) ≡ some x
      → get_elem? items (suc (suc k)) ≡ some (op o)
      → Room s 2 xs
      → ((i : ℕ) → effect s.area o (vm_at s i (cell_of s.addresses x ∷ xs)) ≡ some (vm_at s i ys))
      → RunsTo s (before (k + 3) ys) after
      → RunsTo s (before k xs) after
  do_skip k {xs} {ys} x o e e1 e2 room does rest =
      do_literal k x e e1 (omega arith)
        (do_op (suc (suc k)) {ys = ys} o e2 (omega arith) does (moved (omega arith) rest))

  -- A literal and a jump over `n` cells.
  pub do_jump :
      (k : ℕ) {xs ys : List ℕ} {after : Vm} (n : ℕ) (o : Op)
      → get_elem? items k ≡ some (op Op.literal)
      → get_elem? items (suc k) ≡ some (num n)
      → get_elem? items (suc (suc k)) ≡ some (op o)
      → Room s 2 xs
      → k + 3 + n ≤ length items
      → ((i : ℕ) → effect s.area o (vm_at s i (n ∷ xs)) ≡ some (vm_at s (add64 i (mul64 8 n)) ys))
      → RunsTo s (before (k + 3 + n) ys) after
      → RunsTo s (before k xs) after
  do_jump k {xs} {ys} n o e e1 e2 room inside does rest = do_literal k (num n) e e1 (omega arith) (
      step_op s.host s.area s.addresses s.memory s.last {ys = ys} o (item_at (suc (suc k)) e2)
        (omega arith) (does _) (moved (sym (forward l.base k n (omega (arith, l.bound)))) rest))

  -- A literal and a jump back over `n` cells.
  pub do_jump_back :
      (k : ℕ) {xs ys : List ℕ} {after : Vm} (n : ℕ) (o : Op)
      → get_elem? items k ≡ some (op Op.literal)
      → get_elem? items (suc k) ≡ some (neg n)
      → get_elem? items (suc (suc k)) ≡ some (op o)
      → Room s 2 xs
      → n ≤ k + 3
      → ((i : ℕ)
          → effect s.area o (vm_at s i ((word_mod - n) ∷ xs))
            ≡ some (vm_at s (add64 i (mul64 8 (word_mod - n))) ys))
      → RunsTo s (before (k + 3 - n) ys) after
      → RunsTo s (before k xs) after
  do_jump_back k {xs} {ys} n o e e1 e2 room back does rest =
      do_literal k (neg n) e e1 (omega arith) (
        step_op s.host s.area s.addresses s.memory s.last {ys = ys} o (item_at (suc (suc k)) e2)
          (omega arith) (does _)
          (moved
            (sym
              (backward l.base k n (omega (arith, l.bound, elem-lt items (suc (suc k)) e2)) back))
            rest))
