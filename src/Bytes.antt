-- ===== src/Bytes.antt =====
-- Memory as bytes, little end first.
pub mod Copies
mod Tests
use north_arm.Prelude.{
  ℕ, zero, suc, ◌+◌, ◌-◌, ◌*◌, ◌/◌, ◌%◌, ◌^◌, ◌<◌, ◌≡◌, ◌≢◌, ◌∙◌, sym, refl, ap, Option, none, some,
  ◌==◌, arith, Option-cases, Bool-cases, inl, inr, ==-eq,
}
use native.Mathlib.Nat.{div-div-eq-div-mul}
use north_arm.Machine.{Machine, update, byte_of, with_byte, load_byte, store_byte, done}

byte_of_step : (v k : ℕ) → byte_of v (suc k) ≡ byte_of (v / 256) k
byte_of_step v k =
    ap (λ (x : ℕ). x % 256)
      (ap (λ (y : ℕ). v / y) (omega arith) ∙ sym (div-div-eq-div-mul v 256 (256 ^ k)))

with_byte_step :
    (v b k : ℕ) → k < 7 → with_byte v (suc k) b ≡ with_byte (v / 256) k b * 256 + v % 256
with_byte_step v b zero h = omega arith
with_byte_step v b (suc zero) h = omega arith
with_byte_step v b (suc (suc zero)) h = omega arith
with_byte_step v b (suc (suc (suc zero))) h = omega arith
with_byte_step v b (suc (suc (suc (suc zero)))) h = omega arith
with_byte_step v b (suc (suc (suc (suc (suc zero))))) h = omega arith
with_byte_step v b (suc (suc (suc (suc (suc (suc zero)))))) h = omega arith
with_byte_step v b (suc (suc (suc (suc (suc (suc (suc k))))))) h = absurd (omega arith)

pub byte_of-with_byte_same : (k v b : ℕ) → k < 8 → byte_of (with_byte v k b) k ≡ b % 256
byte_of-with_byte_same zero v b h = omega arith
byte_of-with_byte_same (suc k) v b h =
    byte_of_step (with_byte v (suc k) b) k
    ∙ ap (λ (x : ℕ). byte_of x k) (omega (arith, with_byte_step v b k (omega arith)))
    ∙ byte_of-with_byte_same k (v / 256) b (omega arith)

pub byte_of-with_byte_other :
    (k j v b : ℕ) → k < 8 → j ≢ k → byte_of (with_byte v k b) j ≡ byte_of v j
byte_of-with_byte_other zero zero v b h ne = absurd (ne refl)
byte_of-with_byte_other zero (suc j) v b h ne =
    byte_of_step (with_byte v 0 b) j
    ∙ ap (λ (x : ℕ). byte_of x j) (omega arith)
    ∙ sym (byte_of_step v j)
byte_of-with_byte_other (suc k) zero v b h ne = omega (arith, with_byte_step v b k (omega arith))
byte_of-with_byte_other (suc k) (suc j) v b h ne =
    byte_of_step (with_byte v (suc k) b) j
    ∙ ap (λ (x : ℕ). byte_of x j) (omega (arith, with_byte_step v b k (omega arith)))
    ∙ byte_of-with_byte_other k j (v / 256) b (omega arith) (omega arith)
    ∙ sym (byte_of_step v j)

-- The byte at an address, and memory with a byte changed.
abbrev pub byte_at : (ℕ → Option ℕ) → ℕ → Option ℕ
byte_at cells a = elim (cells (a - a % 8)) [ none ↦ none | some v ↦ some (byte_of v (a % 8)) ]

abbrev pub with_byte_at : (ℕ → Option ℕ) → ℕ → ℕ → ℕ → Option ℕ
with_byte_at cells a b = elim (cells (a - a % 8)) [
  | none ↦ cells
  | some v ↦ update cells (a - a % 8) (with_byte v (a % 8) b)
]

pub byte_at-below : (cells : ℕ → Option ℕ) (a b : ℕ) → byte_at cells a ≡ some b → b < 256
byte_at-below cells a b e = ground arith

pub load_byte_lem : (m : Machine) (a b : ℕ) → byte_at m.cells a ≡ some b → load_byte a m ≡ done b m
load_byte_lem m a b e = ground arith

pub store_byte_lem :
    (m : Machine) (a u b : ℕ)
    → byte_at m.cells a ≡ some u
    → store_byte a b m ≡ done tt (record m { cells = with_byte_at m.cells a b })
store_byte_lem m a u b e = ground arith

pub byte_at-with_byte_at_same :
    (cells : ℕ → Option ℕ) (a u b : ℕ)
    → byte_at cells a ≡ some u
    → byte_at (with_byte_at cells a b) a ≡ some (b % 256)
byte_at-with_byte_at_same cells a u b e = elim (Option-cases (cells (a - a % 8))) [
  | inl n ↦ cc
  | inr (v, at_a) ↦ ground (arith, byte_of-with_byte_same (a % 8) v b (omega arith))
]

pub byte_at-with_byte_at_other :
    (cells : ℕ → Option ℕ) (a q b : ℕ)
    → q ≢ a
    → byte_at (with_byte_at cells a b) q ≡ byte_at cells q
byte_at-with_byte_at_other cells a q b ne = elim (Option-cases (cells (a - a % 8))) [
  | inl n ↦ ground arith
  | inr (v, at_a) ↦ elim (Bool-cases (q - q % 8 == a - a % 8)) [
    | inl y ↦ ground (
      arith,
      byte_of-with_byte_other (a % 8) (q % 8) v b (omega arith) (omega (arith, ne, ==-eq y)),
    )
    | inr n ↦ ground arith
  ]
]
