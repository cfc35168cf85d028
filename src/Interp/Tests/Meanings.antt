-- ===== src/Interp/Tests/Meanings.antt =====
-- What the words in the memory mean.
use north_arm.Interp.Tests.Memory.{host, area, addresses, memory}
use north_arm.Prelude.{ℕ, ◌≡◌, refl, ap, Option, none, some, Bool, true, false, arith}
use north_arm.Word64.{of_ℤ}
use north_arm.C5.Op.{Op}
use north_arm.Forth.Runs.{decode}
use north_arm.Interp.Item.{Item, Const, Colon, op, word, constant, variable, text, num, neg}
use north_arm.Interp.Values.{Value, number, const_value}
use north_arm.Interp.Laid.{Means}

swap-Means : Means host area addresses memory (op Op.swap)
unfolding decode memory
swap-Means = (λ vm e. rw e refl, λ z. omega arith)

literal-Means : Means host area addresses memory (op Op.literal)
unfolding decode memory
literal-Means = (λ vm e. rw e refl, λ z. omega arith)

equals-Means : Means host area addresses memory (op Op.equals)
unfolding decode memory
equals-Means = (λ vm e. rw e refl, λ z. omega arith)

int_add-Means : Means host area addresses memory (op Op.int_add)
unfolding decode memory
int_add-Means = (λ vm e. rw e refl, λ z. omega arith)

int_mul-Means : Means host area addresses memory (op Op.int_mul)
unfolding decode memory
int_mul-Means = (λ vm e. rw e refl, λ z. omega arith)

here-Means : Means host area addresses memory (op Op.here)
unfolding decode memory
here-Means = (λ vm e. rw e refl, λ z. omega arith)

peek-Means : Means host area addresses memory (op Op.peek)
unfolding decode memory
peek-Means = (λ vm e. rw e refl, λ z. omega arith)

return0-Means : Means host area addresses memory (op Op.return0)
unfolding decode memory
return0-Means = (λ vm e. rw e refl, λ z. omega arith)

over-Means : Means host area addresses memory (op Op.over)
unfolding decode memory
over-Means = (λ vm e. rw e refl, λ z. omega arith)

drop-Means : Means host area addresses memory (op Op.drop)
unfolding decode memory
drop-Means = (λ vm e. rw e refl, λ z. omega arith)

roll-Means : Means host area addresses memory (op Op.roll)
unfolding decode memory
roll-Means = (λ vm e. rw e refl, λ z. omega arith)

int_lte-Means : Means host area addresses memory (op Op.int_lte)
unfolding decode memory
int_lte-Means = (λ vm e. rw e refl, λ z. omega arith)

ifjump-Means : Means host area addresses memory (op Op.ifjump)
unfolding decode memory
ifjump-Means = (λ vm e. rw e refl, λ z. omega arith)

unlessjump-Means : Means host area addresses memory (op Op.unlessjump)
unfolding decode memory
unlessjump-Means = (λ vm e. rw e refl, λ z. omega arith)

jumprel-Means : Means host area addresses memory (op Op.jumprel)
unfolding decode memory
jumprel-Means = (λ vm e. rw e refl, λ z. omega arith)

peek_byte-Means : Means host area addresses memory (op Op.peek_byte)
unfolding decode memory
peek_byte-Means = (λ vm e. rw e refl, λ z. omega arith)

int_sub-Means : Means host area addresses memory (op Op.int_sub)
unfolding decode memory
int_sub-Means = (λ vm e. rw e refl, λ z. omega arith)

is_space-Means : Means host area addresses memory (word Colon.is_space)
unfolding decode memory
is_space-Means = (λ vm e. rw e refl, λ z. omega arith)

is_newline-Means : Means host area addresses memory (word Colon.is_newline)
unfolding decode memory
is_newline-Means = (λ vm e. rw e refl, λ z. omega arith)

pick-Means : Means host area addresses memory (word Colon.pick)
unfolding decode memory
pick-Means = (λ vm e. rw e refl, λ z. omega arith)

dict_entry_name-Means : Means host area addresses memory (word Colon.dict_entry_name)
unfolding decode memory
dict_entry_name-Means = (λ vm e. rw e refl, λ z. omega arith)

dict_entry_next-Means : Means host area addresses memory (word Colon.dict_entry_next)
unfolding decode memory
dict_entry_next-Means = (λ vm e. rw e refl, λ z. omega arith)

byte_string_equals4-Means : Means host area addresses memory (word Colon.byte_string_equals4)
unfolding decode memory
byte_string_equals4-Means = (λ vm e. rw e refl, λ z. omega arith)

byte_string_equals3-Means : Means host area addresses memory (word Colon.byte_string_equals3)
unfolding decode memory
byte_string_equals3-Means = (λ vm e. rw e refl, λ z. omega arith)

lookup-Means : Means host area addresses memory (word Colon.lookup)
unfolding decode memory
lookup-Means = (λ vm e. rw e refl, λ z. omega arith)

nseq-Means : Means host area addresses memory (word Colon.nseq)
unfolding decode memory
nseq-Means = (λ vm e. rw e refl, λ z. omega arith)

poke-Means : Means host area addresses memory (op Op.poke)
unfolding decode memory
poke-Means = (λ vm e. rw e refl, λ z. omega arith)

int_lt-Means : Means host area addresses memory (op Op.int_lt)
unfolding decode memory
int_lt-Means = (λ vm e. rw e refl, λ z. omega arith)

swap_places-Means : Means host area addresses memory (word Colon.swap_places)
unfolding decode memory
swap_places-Means = (λ vm e. rw e refl, λ z. omega arith)

reverse3-Means : Means host area addresses memory (word Colon.reverse3)
unfolding decode memory
reverse3-Means = (λ vm e. rw e refl, λ z. omega arith)

reverse-Means : Means host area addresses memory (word Colon.reverse)
unfolding decode memory
reverse-Means = (λ vm e. rw e refl, λ z. omega arith)

abbrev cell : Value → Option ℕ
cell (number z) = some (of_ℤ z)
cell _ = none

cell_size-Means : Means host area addresses memory (constant Const.cell_size)
unfolding decode memory const_value
cell_size-Means = (λ vm e. rw e refl, λ z. omega arith, refl, λ z e. ap cell e)

-- The items that the memory gives a meaning.
abbrev pub known : Item → Bool
known (op Op.swap) = true
known (op Op.literal) = true
known (op Op.equals) = true
known (op Op.int_add) = true
known (op Op.int_mul) = true
known (op Op.here) = true
known (op Op.peek) = true
known (op Op.return0) = true
known (op Op.over) = true
known (op Op.drop) = true
known (op Op.roll) = true
known (op Op.int_lte) = true
known (op Op.ifjump) = true
known (op Op.unlessjump) = true
known (op Op.jumprel) = true
known (op Op.peek_byte) = true
known (op Op.int_sub) = true
known (op Op.int_lt) = true
known (op Op.poke) = true
known (op _) = false
known (word Colon.is_space) = true
known (word Colon.is_newline) = true
known (word Colon.pick) = true
known (word Colon.dict_entry_name) = true
known (word Colon.dict_entry_next) = true
known (word Colon.byte_string_equals4) = true
known (word Colon.byte_string_equals3) = true
known (word Colon.lookup) = true
known (word Colon.nseq) = true
known (word Colon.reverse) = true
known (word Colon.reverse3) = true
known (word Colon.swap_places) = true
known (word _) = false
known (constant Const.cell_size) = true
known (constant _) = false
known _ = true

pub known-Means : (x : Item) → known x ≡ true → Means host area addresses memory x
known-Means (op Op.swap) h = swap-Means
known-Means (op Op.literal) h = literal-Means
known-Means (op Op.equals) h = equals-Means
known-Means (op Op.int_add) h = int_add-Means
known-Means (op Op.int_mul) h = int_mul-Means
known-Means (op Op.here) h = here-Means
known-Means (op Op.peek) h = peek-Means
known-Means (op Op.return0) h = return0-Means
known-Means (op Op.over) h = over-Means
known-Means (op Op.drop) h = drop-Means
known-Means (op Op.roll) h = roll-Means
known-Means (op Op.int_lte) h = int_lte-Means
known-Means (op Op.ifjump) h = ifjump-Means
known-Means (op Op.unlessjump) h = unlessjump-Means
known-Means (op Op.jumprel) h = jumprel-Means
known-Means (op Op.peek_byte) h = peek_byte-Means
known-Means (op Op.int_sub) h = int_sub-Means
known-Means (op Op.int_lt) h = int_lt-Means
known-Means (op Op.poke) h = poke-Means
known-Means (op _) h = cc
known-Means (word Colon.is_space) h = is_space-Means
known-Means (word Colon.is_newline) h = is_newline-Means
known-Means (word Colon.pick) h = pick-Means
known-Means (word Colon.dict_entry_name) h = dict_entry_name-Means
known-Means (word Colon.dict_entry_next) h = dict_entry_next-Means
known-Means (word Colon.byte_string_equals4) h = byte_string_equals4-Means
known-Means (word Colon.byte_string_equals3) h = byte_string_equals3-Means
known-Means (word Colon.lookup) h = lookup-Means
known-Means (word Colon.nseq) h = nseq-Means
known-Means (word Colon.reverse) h = reverse-Means
known-Means (word Colon.reverse3) h = reverse3-Means
known-Means (word Colon.swap_places) h = swap_places-Means
known-Means (word _) h = cc
known-Means (constant Const.cell_size) h = cell_size-Means
known-Means (constant _) h = cc
known-Means (variable _) h = tt
known-Means (text _) h = tt
known-Means (num _) h = tt
known-Means (neg _) h = tt
