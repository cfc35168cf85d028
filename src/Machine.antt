-- ===== src/Machine.antt =====
-- The state that the C functions of misc/c/c5.c share, and the access to it.
-- `cells` maps the address of each live, aligned `Cell` to its 64-bit pattern; any other address
-- is unmapped, and an access to it is a fault. Pointers into the stack and into word lists are
-- byte addresses, so `*sp += 1` adds 8.
use north_arm.Prelude.{
  ℕ, ◌≡◌, ap, zero, suc, ◌+◌, ◌-◌, ◌*◌, ◌/◌, ◌%◌, ◌^◌, Bool, Option, none, some, List, [], ◌∷◌,
  ◌++◌, ◌==◌, if◌then◌else◌,
}
use north_arm.Prelude.Int.{ℤ}

-- What the program writes to stdout: raw bytes, and the numbers that printf formats.
pub data Out : Type 0 where
  bytes : List ℕ → Out
  int : ℤ → Out
  uint : ℕ → Out
  hex : ℕ → Out
  pointer : ℕ → Out
  flushed : ℕ → Out

pub record Machine : Type 0 where
  pub cells : ℕ → Option ℕ
  -- `*sp` and `*eip`
  pub sp : ℕ
  pub ip : ℕ
  -- the globals `last_word` and, in `_ram_used`, `init_brk`
  pub last_word : ℕ
  pub init_brk : ℕ
  -- the characters that getchar has not returned yet, and what was written
  pub input : List ℕ
  pub output : List Out
  -- whether putchar succeeds
  pub stdout_ok : Bool

-- `exited` is a call of exit; `fault` stands for undefined behaviour.
pub data Result (A : Type 0) : Type 0 where
  done : A → Machine → Result A
  exited : ℕ → Machine → Result A
  fault : Result A
  timeout : Result A

abbrev pub M : Type 0 → Type 0
M A = Machine → Result A

abbrev pub pure : {A : Type 0} → A → M A
pure a m = done a m

abbrev pub fail : {A : Type 0} → M A
fail m = fault

-- What follows a call, from the call's result.
abbrev pub and_then : {A B : Type 0} → Result A → (A → M B) → Result B
and_then (done a m) f = f a m
and_then (exited n m) f = exited n m
and_then fault f = fault
and_then timeout f = timeout

infixl 5 ◌>>=◌ ◌>>◌
abbrev pub ◌>>=◌ : {A B : Type 0} → M A → (A → M B) → M B
◌>>=◌ c f m = and_then (c m) f

abbrev pub ◌>>◌ : {B : Type 0} → M (Unit {0}) → M B → M B
c >> k = c >>= λ _. k

abbrev pub update : (ℕ → Option ℕ) → ℕ → ℕ → ℕ → Option ℕ
update f p v q = if p == q then some v else f q

abbrev pub load : ℕ → M ℕ
load a m = elim (m.cells a) [ none ↦ fault | some v ↦ done v m ]

abbrev pub store : ℕ → ℕ → M (Unit {0})
store a v m = elim (m.cells a) [
  | none ↦ fault
  | some _ ↦ done tt (record m { cells = update m.cells a v })
]

abbrev pub get_sp : M ℕ
get_sp m = done m.sp m

abbrev pub set_sp : ℕ → M (Unit {0})
set_sp a m = done tt (record m { sp = a })

abbrev pub get_ip : M ℕ
get_ip m = done m.ip m

abbrev pub set_ip : ℕ → M (Unit {0})
set_ip a m = done tt (record m { ip = a })

-- `*sp += n` and `*sp -= n`
abbrev pub raise : ℕ → M (Unit {0})
raise n m = done tt (record m { sp = m.sp + 8 * n })

abbrev pub lower : ℕ → M (Unit {0})
lower n m = done tt (record m { sp = m.sp - 8 * n })

-- The address `a + k`, in cells.
abbrev pub offset : ℕ → ℕ → ℕ
offset a zero = a
offset a (suc k) = a + 8 * suc k

-- `*(*sp + k)`, read and written
abbrev pub cell : ℕ → M ℕ
cell k m = load (offset m.sp k) m

abbrev pub set_cell : ℕ → ℕ → M (Unit {0})
set_cell k v m = store (offset m.sp k) v m

abbrev pub put : Out → M (Unit {0})
put o m = done tt (record m { output = m.output ++ (o ∷ []) })

-- A `char` in memory: byte `a % 8`, counted from the low end, of the cell that holds it.
abbrev pub byte_of : ℕ → ℕ → ℕ
byte_of v k = v / 256 ^ k % 256

abbrev pub with_byte : ℕ → ℕ → ℕ → ℕ
with_byte v k b = v / 256 ^ (k + 1) * 256 ^ (k + 1) + b % 256 * 256 ^ k + v % 256 ^ k

abbrev pub load_byte : ℕ → M ℕ
load_byte a = do v ← load (a - a % 8); pure (byte_of v (a % 8))

abbrev pub store_byte : ℕ → ℕ → M (Unit {0})
store_byte a b = do v ← load (a - a % 8); store (a - a % 8) (with_byte v (a % 8) b)

-- Access to a mapped cell, and what follows it.
module _ {B : Type 0} (m : Machine) {a u : ℕ} (mapped : m.cells a ≡ some u) where
  pub load_then : (k : ℕ → M B) → (load a >>= k) m ≡ k u m
  load_then k =
      ap (λ (o : Option ℕ). and_then (elim o [ none ↦ fault | some x ↦ done x m ]) k) mapped

  pub store_then :
      (v : ℕ) (k : M B) → (store a v >> k) m ≡ k (record m { cells = update m.cells a v })
  store_then v k =
      ap
        (λ (o : Option ℕ).
          and_then
            (let r : Result (Unit {0}) = elim o [
              | none ↦ fault
              | some _ ↦ done tt (record m { cells = update m.cells a v })
            ] in
              r)
            (λ _. k))
        mapped
