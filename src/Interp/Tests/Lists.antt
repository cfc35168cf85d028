-- ===== src/Interp/Tests/Lists.antt =====
-- That the lists lie in the memory.
use north_arm.Interp.Tests.Meanings.{known, known-Means}
use north_arm.Interp.Tests.Memory.{host, area, addresses, memory, setting}
use north_arm.Prelude.{
  ℕ, ◌+◌, ◌≡◌, refl, ap, Option, none, some, List, [], ◌∷◌, ◌==◌, ◌&&◌, not, Bool, true, false,
  arith,
}
use north_arm.Forth.Vm.{inside}
use north_arm.Interp.Item.{Item, Colon}
use north_arm.Interp.Input
use north_arm.Interp.Dictionary
use north_arm.Interp.Arrays
use north_arm.Interp.Body.{body}
use north_arm.Interp.Laid.{Laid, cell_of}
use north_arm.Interp.Reads.{Defined}

abbrev holds : Option ℕ → ℕ → Bool
holds none v = false
holds (some c) v = c == v

holds_lem : (o : Option ℕ) (v : ℕ) → holds o v ≡ true → o ≡ some v
holds_lem none v h = cc
holds_lem (some c) v h = ap some (ground arith)

-- A list lies at an address, as evaluation shows.
abbrev lies : ℕ → List Item → Bool
lies b [] = true
lies b (x ∷ l) =
    (not (inside area b) && (holds (memory b) (cell_of addresses x) && known x)) && lies (b + 8) l

lies-Laid : (b : ℕ) (l : List Item) → lies b l ≡ true → Laid host area addresses memory b l
lies-Laid b [] h = tt
lies-Laid b (x ∷ l) h = (
  record {
    outside = ground arith;
    cell = holds_lem (memory b) (cell_of addresses x) (ground arith);
    means = known-Means x (ground arith);
  },
  lies-Laid (b + 8) l (ground arith),
)

pub is_space-Defined : Defined setting Colon.is_space
unfolding memory body Input.is_space
is_space-Defined = (lies-Laid 30000 Input.is_space refl, omega arith)

pub is_newline-Defined : Defined setting Colon.is_newline
unfolding memory body Input.is_newline
is_newline-Defined = (lies-Laid 31000 Input.is_newline refl, omega arith)

pub pick-Defined : Defined setting Colon.pick
unfolding memory body Arrays.pick
pick-Defined = (lies-Laid 32000 Arrays.pick refl, omega arith)

pub dict_entry_name-Defined : Defined setting Colon.dict_entry_name
unfolding memory body Dictionary.dict_entry_name
dict_entry_name-Defined = (lies-Laid 33000 Dictionary.dict_entry_name refl, omega arith)

pub dict_entry_next-Defined : Defined setting Colon.dict_entry_next
unfolding memory body Dictionary.dict_entry_next
dict_entry_next-Defined = (lies-Laid 34000 Dictionary.dict_entry_next refl, omega arith)

pub byte_string_equals4-Defined : Defined setting Colon.byte_string_equals4
unfolding memory body Dictionary.byte_string_equals4
byte_string_equals4-Defined = (lies-Laid 35000 Dictionary.byte_string_equals4 refl, omega arith)

pub byte_string_equals3-Defined : Defined setting Colon.byte_string_equals3
unfolding memory body Dictionary.byte_string_equals3
byte_string_equals3-Defined = (lies-Laid 36000 Dictionary.byte_string_equals3 refl, omega arith)

pub lookup-Defined : Defined setting Colon.lookup
unfolding memory body Dictionary.lookup
lookup-Defined = (lies-Laid 37000 Dictionary.lookup refl, omega arith)

pub nseq-Defined : Defined setting Colon.nseq
unfolding memory body Arrays.nseq
nseq-Defined = (lies-Laid 38000 Arrays.nseq refl, omega arith)

pub swap_places-Defined : Defined setting Colon.swap_places
unfolding memory body Arrays.swap_places
swap_places-Defined = (lies-Laid 39000 Arrays.swap_places refl, omega arith)

pub reverse3-Defined : Defined setting Colon.reverse3
unfolding memory body Arrays.reverse3
reverse3-Defined = (lies-Laid 40000 Arrays.reverse3 refl, omega arith)

pub reverse-Defined : Defined setting Colon.reverse
unfolding memory body Arrays.reverse
reverse-Defined = (lies-Laid 41000 Arrays.reverse refl, omega arith)
