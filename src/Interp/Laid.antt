-- ===== src/Interp/Laid.antt =====
-- The word lists of misc/c/c4-interp.c in the memory of the abstract machine, and its steps on them.
use north_arm.Prelude.{
  ℕ, ◌+◌, ◌-◌, ◌*◌, ◌≤◌, ◌≡◌, ◌≢◌, ◌||◌, refl, Bool, Option, some, List, [], ◌∷◌, length, ◌==◌,
  ==-ne, arith,
}
use north_arm.Word64.{word_mod, of_ℤ}
use north_arm.C5.Op.{Op, Host, data_of}
use north_arm.Forth.Vm.{Area, Vm, effect, simple, fetch, inside, advance, look, top_of}
use north_arm.Forth.Runs.{Runs, decode, primitive, own, colon}
use north_arm.Forth.View.{vm_of}
use north_arm.Prelude.Int.{ℤ}
use north_arm.Interp.Values.{const_value, number}
use north_arm.Interp.Item.{
  Item, Const, Colon, Var, Text, op, word, constant, variable, text, num, neg,
}

-- Where the linker has put the words and the character arrays.
pub record Addresses : Type 0 where
  pub op_at : Op → ℕ
  pub word_at : Colon → ℕ
  pub const_at : Const → ℕ
  pub var_at : Var → ℕ
  pub text_at : Text → ℕ
  -- the lists of the words that DEFCOL defines
  pub list_at : Colon → ℕ

-- The cell that an item is.
abbrev pub cell_of : Addresses → Item → ℕ
cell_of a (op o) = a.op_at o
cell_of a (word c) = a.word_at c
cell_of a (constant c) = a.const_at c
cell_of a (variable v) = a.var_at v
cell_of a (text t) = a.text_at t
cell_of a (num n) = n
cell_of a (neg n) = word_mod - n

module _ (host : Host) (area : Area) (addresses : Addresses) where
  -- In this memory a word of DEFOP, DEFCONST2 or DEFCOL is what the macro makes of it. Nothing is
  -- asked of other items.
  abbrev pub Means : (ℕ → Option ℕ) → Item → Type 0
  Means memory (op o) =
      ((vm : Vm)
        → vm.memory ≡ memory
        → decode host area vm (addresses.op_at o) ≡ some (primitive o))
      × (addresses.op_at o ≢ 0)
  Means memory (constant c) =
      ((vm : Vm)
        → vm.memory ≡ memory
        → decode host area vm (addresses.const_at c) ≡ some (own Op.doconst))
      × (addresses.const_at c ≢ 0)
      × (inside area (data_of (addresses.const_at c)) ≡ Bool.false)
      × ((z : ℤ)
          → const_value c ≡ number z
          → memory (data_of (addresses.const_at c)) ≡ some (of_ℤ z))
  Means memory (word c) =
      ((vm : Vm)
        → vm.memory ≡ memory
        → decode host area vm (addresses.word_at c) ≡ some (colon (addresses.list_at c)))
      × (addresses.word_at c ≢ 0)
  Means memory x = Unit {0}

  -- The cell at `a`, outside the stack, holds the item, with its meaning.
  pub record Holds (memory : ℕ → Option ℕ) (a : ℕ) (x : Item) : Type 0 where
    pub outside : inside area a ≡ Bool.false
    pub cell : memory a ≡ some (cell_of addresses x)
    pub means : Means memory x

  -- The cells from `b` on hold the list.
  abbrev pub Laid : (ℕ → Option ℕ) → ℕ → List Item → Type 0
  Laid memory b [] = Unit {0}
  Laid memory b (x ∷ l) = Holds memory b x × Laid memory (b + 8) l

  -- From `vm`, whose `ip` is at the next word, the machine runs to the state `after`.
  pub record Executes (vm after : Vm) : Type 0 where
    pub next : ℕ
    pub fetched : fetch area vm vm.ip ≡ some next
    pub runs : Runs host area next (advance vm) after

  -- The stack has `n` cells to spare.
  abbrev pub Spare : ℕ → List ℕ → Type 0
  Spare n xs = area.base + 8 * (n + length xs) ≤ area.limit

  module _ (memory : ℕ → Option ℕ) (last : ℕ) where
    abbrev pub state : ℕ → List ℕ → Vm
    state i xs = vm_of i xs memory last

    goes : (w i : ℕ) → w ≢ 0 → ((w == 0) || (i + 8 == 0)) ≡ Bool.false
    goes w i h = rw (==-ne h) (ground arith)

    pub step_op :
        {i j : ℕ} {xs ys : List ℕ} {after : Vm} (o : Op)
        → Holds memory i (op o)
        → Spare 1 xs
        → effect area o (state (i + 8) xs) ≡ some (state j ys)
        → Executes (state j ys) after
        → Executes (state i xs) after
    unfolding simple
    step_op {i} {j} {xs} {ys} {after} o h room does rest = record {
      next = addresses.op_at o;
      fetched = ground (arith, h.outside, h.cell);
      runs =
          Runs.op {vm = state (i + 8) xs} o (goes (addresses.op_at o) i h.means.1) (omega arith)
            (h.means.0 _ refl) (rw (does, rest.fetched) refl) rest.runs;
    }

    pub step_literal :
        {i : ℕ} {xs : List ℕ} {after : Vm} (k : Item)
        → Holds memory i (op Op.literal)
        → Holds memory (i + 8) k
        → Spare 1 xs
        → Executes (state (i + 8 + 8) (cell_of addresses k ∷ xs)) after
        → Executes (state i xs) after
    unfolding simple effect
    step_literal {i} {xs} {after} k h h1 room rest = record {
      next = addresses.op_at Op.literal;
      fetched = ground (arith, h.outside, h.cell);
      runs =
          Runs.op {vm = state (i + 8) xs} Op.literal (goes (addresses.op_at Op.literal) i h.means.1)
            (omega arith) (h.means.0 _ refl) (rw (h1.outside, h1.cell, rest.fetched) refl)
            rest.runs;
    }

    pub step_constant :
        {i : ℕ} {xs : List ℕ} {after : Vm} (c : Const) (z : ℤ)
        → Holds memory i (constant c)
        → const_value c ≡ number z
        → Spare 2 xs
        → Executes (state (i + 8) (of_ℤ z ∷ xs)) after
        → Executes (state i xs) after
    unfolding simple effect look
    step_constant {i} {xs} {after} c z h value room rest = record {
      next = addresses.const_at c;
      fetched = ground (arith, h.outside, h.cell);
      runs =
          Runs.self {vm = state (i + 8) xs} Op.doconst (goes (addresses.const_at c) i h.means.1)
            (omega arith) (h.means.0 _ refl) (rw (h.means.2, h.means.3 z value, rest.fetched) refl)
            rest.runs;
    }

    pub step_return :
        {i f : ℕ} {xs : List ℕ}
        → Holds memory i (op Op.return0)
        → Spare 1 (f ∷ xs)
        → Executes (state i (f ∷ xs)) (state 0 xs)
    step_return {i} {f} {xs} h room = record {
      next = addresses.op_at Op.return0;
      fetched = ground (arith, h.outside, h.cell);
      runs =
          Runs.return {vm = state (i + 8) (f ∷ xs)} f xs
            (goes (addresses.op_at Op.return0) i h.means.1) (omega arith) (h.means.0 _ refl) refl;
    }

    -- A word of the list, whose own list runs with a new frame on the stack.
    pub step_call :
        {i : ℕ} {xs ys : List ℕ} {after : Vm} (c : Colon)
        → Holds memory i (word c)
        → Spare 1 xs
        → Executes (state (addresses.list_at c) (top_of area xs ∷ xs)) (state 0 ys)
        → Executes (state (i + 8) ys) after
        → Executes (state i xs) after
    step_call {i} {xs} {ys} {after} c h room callee rest = record {
      next = addresses.word_at c;
      fetched = ground (arith, h.outside, h.cell);
      runs =
          Runs.call {vm = state (i + 8) xs} (addresses.list_at c)
            (goes (addresses.word_at c) i h.means.1) (omega arith) (h.means.0 _ refl) callee.fetched
            callee.runs rest.fetched rest.runs;
    }
