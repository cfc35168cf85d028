-- ===== src/Interp/Reads.antt =====
-- Where the lists of words lie, and what pushes leave readable.
use mathlib.Core.Path.{subst}
use north_arm.Prelude.{
  ℕ, ◌+◌, ◌-◌, ◌*◌, ◌%◌, ◌<◌, ◌≤◌, ◌≡◌, ap, inl, inr, Bool-cases, Option-cases, Option, none, some,
  List, [], ◌∷◌, length, length-append, ◌++◌, ◌==◌, arith,
}
use mathlib.Core.Option.{some-injective}
use north_arm.Word64.{word_mod}
use north_arm.Machine.{byte_of}
use north_arm.C5.Memory.{sign_extend}
use north_arm.Forth.Vm.{Area, Vm, ◌>>=◌, find, look, inside, top_of}
use north_arm.Interp.Item.{Colon}
use north_arm.Interp.Body.{body}
use north_arm.Interp.Laid.{Laid}
use north_arm.Interp.Listing.{Setting, vm_at, RunsTo, Room, Listing, before}

-- The word's list lies where its data says.
abbrev pub Defined : Setting → Colon → Type 0
Defined s c =
    Laid s.host s.area s.addresses s.memory (s.addresses.list_at c) (body c)
    × (s.addresses.list_at c + 8 * length (body c) < word_mod)

abbrev pub listing : (s : Setting) (c : Colon) → Defined s c → Listing s (body c)
listing s c d = record { base = s.addresses.list_at c; laid = d.0; bound = d.1 }

-- The cell and the `char` at an address, on the stack or outside it.
abbrev pub look_at : Setting → List ℕ → ℕ → Option ℕ
look_at s xs p = look s.area (vm_at s 0 xs) p

abbrev pub byte_at : Setting → List ℕ → ℕ → Option ℕ
byte_at s xs p = look_at s xs (p - p % 8) >>= λ v. some (sign_extend (byte_of v (p % 8)))

-- A list that a word calls starts at its first item.
pub from_start :
    (s : Setting) (c : Colon) (d : Defined s c) {xs : List ℕ} {after : Vm}
    → RunsTo s (before (listing s c d) 0 xs) after
    → RunsTo s (vm_at s (s.addresses.list_at c) xs) after
from_start s c d {xs} {after} run = subst (λ i. RunsTo s (vm_at s i xs) after) (omega arith) run

none_ne_some : {A : Type 0} {v : A} → none ≡ some v → ⊥
none_ne_some e = cc

find-ge :
    (area : Area) (xs : List ℕ) (a : ℕ) {v : ℕ}
    → 8 * length xs ≤ area.limit
    → find area xs a ≡ some v
    → top_of area xs ≤ a
unfolding find
find-ge area [] a h e = cc
find-ge area (x ∷ xs) a h e = elim (Bool-cases (a == top_of area (x ∷ xs))) [
  | inl same ↦ ground arith
  | inr other ↦ omega (arith, find-ge area xs a (omega arith) (rw other at e))
]

-- A push leaves what is readable below as it is.
pub look-push :
    (s : Setting) (i y p : ℕ) (xs : List ℕ) {v : ℕ}
    → Room s 1 xs
    → look_at s xs p ≡ some v
    → look s.area (vm_at s i (y ∷ xs)) p ≡ some v
unfolding look find
look-push s i y p xs {v} room e = elim (Bool-cases (inside s.area p)) [
  | inl within ↦
      let found : find s.area xs p ≡ some v = rw within at e in
      ground (arith, find-ge s.area xs p (omega arith) found)
  | inr out ↦ rw out (rw out at e)
]

pub byte_cell :
    (s : Setting) (p : ℕ) (xs : List ℕ) {v : ℕ}
    → byte_at s xs p ≡ some v
    → (c : ℕ) × (look_at s xs (p - p % 8) ≡ some c) × (sign_extend (byte_of c (p % 8)) ≡ v)
byte_cell s p xs e = elim (Option-cases (look_at s xs (p - p % 8))) [
  | inl z ↦ absurd (none_ne_some (rw z at e))
  | inr (c, found) ↦ (c, found, some-injective _ _ (rw found at e))
]

pub byte-push :
    (s : Setting) (y p : ℕ) (xs : List ℕ) {v : ℕ}
    → Room s 1 xs
    → byte_at s xs p ≡ some v
    → byte_at s (y ∷ xs) p ≡ some v
byte-push s y p xs room e =
    let (c, found, is) = byte_cell s p xs e in
    rw (look-push s 0 y (p - p % 8) xs room found) (ap some is)

-- The same for several pushes.
pub look-append :
    (s : Setting) (ys : List ℕ) (p : ℕ) (xs : List ℕ) {v : ℕ}
    → Room s (length ys) xs
    → look_at s xs p ≡ some v
    → look_at s (ys ++ xs) p ≡ some v
look-append s [] p xs room e = e
look-append s (y ∷ ys) p xs room e =
    look-push s 0 y p (ys ++ xs) (omega (arith, length-append ys xs))
      (look-append s ys p xs (omega arith) e)

pub byte-append :
    (s : Setting) (ys : List ℕ) (p : ℕ) (xs : List ℕ) {v : ℕ}
    → Room s (length ys) xs
    → byte_at s xs p ≡ some v
    → byte_at s (ys ++ xs) p ≡ some v
byte-append s [] p xs room e = e
byte-append s (y ∷ ys) p xs room e =
    byte-push s y p (ys ++ xs) (omega (arith, length-append ys xs))
      (byte-append s ys p xs (omega arith) e)
