-- ===== src/Interp/Agree.antt =====
-- Whether two byte strings agree, as byte-string-equals? of misc/c/c4-interp.c has it.
use north_arm.Interp.Reads.{byte_at, byte-append}
use north_arm.Prelude.{
  ℕ, zero, suc, ◌^◌, ◌<◌, ◌≡◌, Bool, true, false, inl, inr, Bool-cases, Option-cases, Option, none,
  some, List, ◌++◌, length, ◌==◌, leb, arith, if◌then◌else◌,
}
use north_arm.Word64.{add64, sle}
use north_arm.Forth.Vm.{◌>>=◌}
use north_arm.Interp.Listing.{Setting, Room}

-- Whether `rest` bytes from place `i` on agree; `none`, where one that matters cannot be read.
-- Addresses wrap at 64 bits.
unfoldable pub compare : Setting → List ℕ → (sa sb i rest : ℕ) → Option Bool
compare s xs sa sb i zero = some true
compare s xs sa sb i (suc rest) = byte_at s xs (add64 i sa) >>= λ x.
    byte_at s xs (add64 i sb) >>= λ y.
    let more = compare s xs sa sb (suc i) rest in if x == y then more else some false

pub none_ne_bool : {b : Bool} → none ≡ some b → ⊥
none_ne_bool e = cc

pub sle_small : (a b : ℕ) → a < 2 ^ 63 → b < 2 ^ 63 → sle a b ≡ leb a b
sle_small a b ha hb = ground arith

pub compare-append :
    (s : Setting) (ys : List ℕ) (xs : List ℕ) (sa sb i rest : ℕ) {r : Bool}
    → Room s (length ys) xs
    → compare s xs sa sb i rest ≡ some r
    → compare s (ys ++ xs) sa sb i rest ≡ some r
unfolding compare
compare-append s ys xs sa sb i zero room e = e
compare-append s ys xs sa sb i (suc rest) room e = elim (Option-cases (byte_at s xs (add64 i sa))) [
  | inl z ↦ absurd (none_ne_bool (rw z at e))
  | inr (x, at_a) ↦ elim (Option-cases (byte_at s xs (add64 i sb))) [
    | inl z ↦ absurd (none_ne_bool (rw (at_a, z) at e))
    | inr (y, at_b) ↦ elim (Bool-cases (x == y)) [
      | inl equal ↦
          rw
            (
              byte-append s ys (add64 i sa) xs room at_a,
              byte-append s ys (add64 i sb) xs room at_b,
              equal,
            )
            (compare-append s ys xs sa sb (suc i) rest room (rw (at_a, at_b, equal) at e))
      | inr other ↦
          rw
            (
              byte-append s ys (add64 i sa) xs room at_a,
              byte-append s ys (add64 i sb) xs room at_b,
              other,
            )
            (rw (at_a, at_b, other) at e)
    ]
  ]
]
