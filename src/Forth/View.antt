-- ===== src/Forth/View.antt =====
-- How the C machine represents the abstract one.
pub mod Cells
pub mod Shuffles
pub mod Arith
pub mod Data
pub mod Jumps
pub mod Effect
mod Tests
use north_arm.Prelude.{
  ℕ, zero, suc, ◌+◌, ◌-◌, ◌*◌, ◌%◌, ◌≤◌, ◌<◌, ◌≡◌, ◌≢◌, ◌⊎◌, inl, inr, refl, Bool, true, false,
  Option, none, some, List, [], ◌∷◌, length, arith, ◌==◌, leb, ltb, if◌then◌else◌, ◌&&◌,
}
use mathlib.Core.Path.{subst}
use mathlib.Core.Option.{some-injective}
use north_arm.Machine.{Machine, Result, M, update, done}
use north_arm.Forth.Vm.{Area, Vm, inside, find, replace, top_of, look, change, Fits, fetch, advance}

abbrev pub is_some : Option ℕ → Bool
is_some none = false
is_some (some _) = true

-- The cells from `s` up hold `xs`.
abbrev pub Stack : (ℕ → Option ℕ) → ℕ → List ℕ → Type 0
Stack c s [] = Unit {0}
Stack c s (x ∷ xs) = (c s ≡ some x) × Stack c (s + 8) xs

module _ (area : Area) where
  -- Cells `c` with the stack pointer `s` represent a stack and a memory.
  pub record View (c : ℕ → Option ℕ) (s : ℕ) (xs : List ℕ) (memory : ℕ → Option ℕ) : Type 0 where
    pub stack : Stack c s xs
    pub outside : (a : ℕ) → inside area a ≡ false → c a ≡ memory a
    -- the cells below the stack can be written
    pub room : (a : ℕ) → area.base ≤ a → a < s → (s - a) % 8 ≡ 0 → is_some (c a) ≡ true
    pub bottom : area.base ≤ s
    pub top : s + 8 * length xs ≡ area.limit

-- The machine `m` with the state `vm`, held in the cells `c` with the stack pointer `s`.
abbrev pub at : Machine → (ℕ → Option ℕ) → ℕ → Vm → Machine
at m c s vm = record m { cells = c; sp = s; ip = vm.ip; last_word = vm.last_word }

-- The program ends with the result `r` in a machine that represents `after`.
pub record Ends (area : Area) (m : Machine) (r : ℕ) (after : Vm) (out : Result ℕ) : Type 0 where
  pub cells : ℕ → Option ℕ
  pub sp : ℕ
  pub ends : out ≡ done r (at m cells sp after)
  pub view : View area cells sp after.stack after.memory

-- The abstract machine with its four parts.
abbrev pub vm_of : ℕ → List ℕ → (ℕ → Option ℕ) → ℕ → Vm
vm_of i xs memory l = record { ip = i; stack = xs; memory = memory; last_word = l }

-- On a stack `xs` the program does what `effect` says, and fetches the next word.
abbrev pub Simulates : Area → (Vm → Option Vm) → M ℕ → List ℕ → Type 0
Simulates area effect program xs =
    (m : Machine) (c memory : ℕ → Option ℕ) (s i l w : ℕ) (after : Vm)
    → effect (vm_of i xs memory l) ≡ some after
    → fetch area after after.ip ≡ some w
    → View area c s xs memory
    → Fits area (vm_of i xs memory l)
    → Ends area m w (advance after) (program (at m c s (vm_of i xs memory l)))

pub none_ne_some : {v : Vm} → none ≡ some v → ⊥
none_ne_some e = cc

pub conclude :
    (area : Area) (m : Machine) (w : ℕ) (v after : Vm) {out : Result ℕ}
    → some v ≡ some after
    → fetch area after after.ip ≡ some w
    → (fetch area v v.ip ≡ some w → Ends area m w (advance v) out)
    → Ends area m w (advance after) out
conclude area m w v after {out} e code k =
    subst (λ u. Ends area m w (advance u) out) same (k (rw same code))
  where
    same : v ≡ after
    same = some-injective v after e
