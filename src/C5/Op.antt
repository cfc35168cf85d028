-- ===== src/C5/Op.antt =====
-- The functions that the `code` and `data` cells of the words of misc/c/c5.c point to, and
-- what the linker and the compiler decide.
use north_arm.Prelude.{ℕ, ◌+◌, Option}
use north_arm.Machine.{Machine}

-- One constructor for each C function `_name` of type `Fun`.
pub data Op : Type 0 where
  doconst doop exec next cputs write_string flush cexit literal return0 rallot here rhere : Op
  int_sub uint_sub ptr_add ptr_sub write_int write_uint swap fdup enter docol eip : Op
  abort_next write_hex_int int_add int_mul int_div int_mod bsl bsr int_lte int_lt equals : Op
  peek poke peek_byte poke_byte ifjump unlessjump drop fexit over rpush rpop cread cwrite : Op
  jumprel roll shift rot dovar doivar free_ram ram_used move set_dict dict : Op

-- The linked program and its C stack: which function an address is the entry of, the address of
-- the word `return0`, the memory that alloca hands out with the cells it maps, and the address of
-- a local variable of the running function.
pub record Host : Type 0 where
  pub text : ℕ → Option Op
  pub return0_at : ℕ
  pub alloca : ℕ → Machine → ℕ × (ℕ → Option ℕ)
  pub local_at : Machine → ℕ

-- The fields of `struct Word`, as offsets into its four cells.
abbrev pub name_of : ℕ → ℕ
name_of w = w

abbrev pub code_of : ℕ → ℕ
code_of w = w + 8

abbrev pub data_of : ℕ → ℕ
data_of w = w + 16

abbrev pub next_of : ℕ → ℕ
next_of w = w + 24
