-- ===== src/Word64.antt =====
-- The 64-bit `long` and `unsigned long` of the C union `Cell` (misc/c/c5.h), as bit patterns.
use north_arm.Prelude.{ℕ, ◌+◌, ◌-◌, ◌*◌, ◌%◌, ◌^◌, Bool, ltb, if◌then◌else◌}
use north_arm.Prelude.Int.{ℤ, pos, negsuc, ltb_ℤ, leb_ℤ}

abbrev pub word_mod : ℕ
word_mod = 2 ^ 64

abbrev pub add64 : ℕ → ℕ → ℕ
add64 a b = (a + b) % word_mod

abbrev pub sub64 : ℕ → ℕ → ℕ
sub64 a b = (a + (word_mod - b)) % word_mod

abbrev pub mul64 : ℕ → ℕ → ℕ
mul64 a b = (a * b) % word_mod

-- The integer that a pattern stands for as a `long`.
abbrev pub to_ℤ : ℕ → ℤ
to_ℤ x = if ltb x (2 ^ 63) then pos x else negsuc (word_mod - 1 - x)

-- The pattern of an integer: -(n + 1) is the complement of n.
abbrev pub of_ℤ : ℤ → ℕ
of_ℤ (pos n) = n % word_mod
of_ℤ (negsuc n) = word_mod - 1 - n % word_mod

-- Signed comparison of two patterns.
abbrev pub slt : ℕ → ℕ → Bool
slt a b = ltb_ℤ (to_ℤ a) (to_ℤ b)

abbrev pub sle : ℕ → ℕ → Bool
sle a b = leb_ℤ (to_ℤ a) (to_ℤ b)
