-- ===== src/Interp/Flow.antt =====
-- Where control goes inside the word lists of misc/c/c4-interp.c. A list is entered at its first
-- item. `literal` takes the item after it, and a jump takes its distance from the literal before it.
pub mod Closed
mod Tests
use north_arm.Prelude.{
  ℕ, zero, suc, ◌+◌, ◌-◌, ◌≡◌, Bool, true, false, not, ◌&&◌, ◌||◌, Option, none, some, List, [],
  ◌∷◌, leb, ◌==◌, if◌then◌else◌,
}
use north_arm.C5.Op
use north_arm.C5.Op.{Op}
use north_arm.Interp.Item.{Item, op, num, neg}

abbrev pub is_literal : Item → Bool
is_literal (op Op.literal) = true
is_literal _ = false

-- What the items at some place do to control. A jump comes with the item that has its distance.
pub data Instruction : Type 0 where
  ends : Instruction
  step : ℕ → Instruction
  jumps : Item → Instruction
  branches : Item → Instruction
  unknown : Instruction

-- An item that is not the operand of a literal.
unfoldable pub plain : Item → Instruction
plain (op Op.return0) = ends
plain (op Op.fexit) = ends
plain (op Op.abort_next) = ends
plain (op Op.jumprel) = unknown
plain (op Op.ifjump) = unknown
plain (op Op.unlessjump) = unknown
plain _ = step 1

-- A literal with the operand `k`, before the item given.
unfoldable pub pushed : Item → Item → Instruction
pushed k (op Op.jumprel) = jumps k
pushed k (op Op.ifjump) = branches k
pushed k (op Op.unlessjump) = branches k
pushed k _ = step 2

abbrev pub literal_before : List Item → Instruction
literal_before (k ∷ x ∷ l) = pushed k x
literal_before _ = unknown

abbrev pub instruction : List Item → Instruction
instruction [] = unknown
instruction (x ∷ l) = if is_literal x then literal_before l else plain x

-- How many items an instruction takes.
abbrev pub extent : Instruction → ℕ
extent ends = 1
extent (step n) = n
extent (jumps k) = 3
extent (branches k) = 3
extent unknown = 1

-- Whether an instruction starts at a place, when the first `rest` items belong to one before.
unfoldable pub starts : (rest : ℕ) → List Item → ℕ → Bool
unfolding plain pushed
starts rest [] p = false
starts zero (x ∷ l) zero = true
starts (suc rest) (x ∷ l) zero = false
starts zero (x ∷ l) (suc p) = starts (extent (instruction (x ∷ l)) - 1) l p
starts (suc rest) (x ∷ l) (suc p) = starts rest l p

unfoldable pub items_from : List Item → ℕ → List Item
items_from l zero = l
items_from [] (suc p) = []
items_from (x ∷ l) (suc p) = items_from l p

-- Where a jump with the literal at place `p` goes: `*eip` is past the jump when it moves.
abbrev pub target : ℕ → Item → Option ℕ
target p (num n) = some (p + 3 + n)
target p (neg n) = if leb n (p + 3) then some (p + 3 - n) else none
target p _ = none

abbrev pub lands : Option ℕ → ℕ → Bool
lands none q = true
lands (some t) q = q == t

-- Whether control can go from place `p` to place `q`; anywhere, where the list does not tell.
unfoldable pub goes : Instruction → ℕ → ℕ → Bool
goes ends p q = false
goes (step n) p q = q == p + n
goes (jumps k) p q = lands (target p k) q
goes (branches k) p q = (q == p + 3) || lands (target p k) q
goes unknown p q = true

-- The places that control comes to.
pub data Reaches (l : List Item) : ℕ → Type 0 where
  entry : Reaches l 0
  go : {p q : ℕ} → Reaches l p → goes (instruction (items_from l p)) p q ≡ true → Reaches l q
