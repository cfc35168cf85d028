-- ===== src/Interp/Tests/Memory.antt =====
-- A memory with words of the outer interpreter and a dictionary of two entries.
use north_arm.Prelude.{ℕ, ◌+◌, Option, none, some, List, [], ◌∷◌, ◌++◌, ◌==◌, if◌then◌else◌}
use north_arm.C5.Op.{Op, Host}
use north_arm.Forth.Vm.{Area}
use north_arm.Interp.Item.{Item, Colon}
use north_arm.Interp.Input
use north_arm.Interp.Dictionary
use north_arm.Interp.Arrays
use north_arm.Interp.Body.{body}
use north_arm.Interp.Laid.{Addresses, cell_of}
use north_arm.Interp.Listing.{Setting}

abbrev table : {A : Type 0} → List (ℕ × A) → ℕ → Option A
table [] k = none
table ((a, v) ∷ entries) k = if a == k then some v else table entries k

-- The addresses of C functions.
abbrev pub functions : ℕ → Option Op
functions = table (
    (1, Op.doop)
    ∷ (2, Op.doconst)
    ∷ (3, Op.docol)
    ∷ (100, Op.swap)
    ∷ (101, Op.literal)
    ∷ (102, Op.equals)
    ∷ (103, Op.int_add)
    ∷ (104, Op.int_mul)
    ∷ (105, Op.here)
    ∷ (106, Op.peek)
    ∷ (107, Op.return0)
    ∷ (108, Op.over)
    ∷ (109, Op.drop)
    ∷ (110, Op.roll)
    ∷ (111, Op.int_lte)
    ∷ (112, Op.ifjump)
    ∷ (113, Op.unlessjump)
    ∷ (114, Op.jumprel)
    ∷ (115, Op.peek_byte)
    ∷ (116, Op.int_sub)
    ∷ (117, Op.poke)
    ∷ (118, Op.int_lt)
    ∷ [])

abbrev pub host : Host
host = record {
  text = functions;
  return0_at = 10224;
  alloca = λ n m. (0, m.cells);
  local_at = λ m. 0;
}

abbrev pub area : Area
area = record { base = 4000; limit = 4800 }

abbrev op_at : Op → ℕ
op_at Op.swap = 10000
op_at Op.literal = 10032
op_at Op.equals = 10064
op_at Op.int_add = 10096
op_at Op.int_mul = 10128
op_at Op.here = 10160
op_at Op.peek = 10192
op_at Op.return0 = 10224
op_at Op.over = 10256
op_at Op.drop = 10288
op_at Op.roll = 10320
op_at Op.int_lte = 10352
op_at Op.ifjump = 10384
op_at Op.unlessjump = 10416
op_at Op.jumprel = 10448
op_at Op.peek_byte = 10480
op_at Op.int_sub = 10512
op_at Op.poke = 10544
op_at Op.int_lt = 10576
op_at _ = 0

abbrev word_at : Colon → ℕ
word_at Colon.is_space = 20000
word_at Colon.is_newline = 20032
word_at Colon.pick = 20064
word_at Colon.dict_entry_name = 20096
word_at Colon.dict_entry_next = 20128
word_at Colon.byte_string_equals4 = 20160
word_at Colon.byte_string_equals3 = 20192
word_at Colon.lookup = 20224
word_at Colon.nseq = 20256
word_at Colon.swap_places = 20288
word_at Colon.reverse3 = 20320
word_at Colon.reverse = 20352
word_at _ = 0

abbrev list_at : Colon → ℕ
list_at Colon.is_space = 30000
list_at Colon.is_newline = 31000
list_at Colon.pick = 32000
list_at Colon.dict_entry_name = 33000
list_at Colon.dict_entry_next = 34000
list_at Colon.byte_string_equals4 = 35000
list_at Colon.byte_string_equals3 = 36000
list_at Colon.lookup = 37000
list_at Colon.nseq = 38000
list_at Colon.swap_places = 39000
list_at Colon.reverse3 = 40000
list_at Colon.reverse = 41000
list_at _ = 0

abbrev pub addresses : Addresses
addresses = record {
  op_at = op_at;
  word_at = word_at;
  const_at = λ c. 600;
  var_at = λ v. 0;
  text_at = λ t. 0;
  list_at = list_at;
}

-- The code and data cells of the words.
abbrev words : List (ℕ × ℕ)
words =
    (608, 2)
    ∷ (616, 8)
    ∷ (10008, 1)
    ∷ (10016, 100)
    ∷ (10040, 1)
    ∷ (10048, 101)
    ∷ (10072, 1)
    ∷ (10080, 102)
    ∷ (10104, 1)
    ∷ (10112, 103)
    ∷ (10136, 1)
    ∷ (10144, 104)
    ∷ (10168, 1)
    ∷ (10176, 105)
    ∷ (10200, 1)
    ∷ (10208, 106)
    ∷ (10232, 1)
    ∷ (10240, 107)
    ∷ (10264, 1)
    ∷ (10272, 108)
    ∷ (10296, 1)
    ∷ (10304, 109)
    ∷ (10328, 1)
    ∷ (10336, 110)
    ∷ (10360, 1)
    ∷ (10368, 111)
    ∷ (10392, 1)
    ∷ (10400, 112)
    ∷ (10424, 1)
    ∷ (10432, 113)
    ∷ (10456, 1)
    ∷ (10464, 114)
    ∷ (10488, 1)
    ∷ (10496, 115)
    ∷ (10520, 1)
    ∷ (10528, 116)
    ∷ (10552, 1)
    ∷ (10560, 117)
    ∷ (10584, 1)
    ∷ (10592, 118)
    ∷ (20008, 3)
    ∷ (20016, 30000)
    ∷ (20040, 3)
    ∷ (20048, 31000)
    ∷ (20072, 3)
    ∷ (20080, 32000)
    ∷ (20104, 3)
    ∷ (20112, 33000)
    ∷ (20136, 3)
    ∷ (20144, 34000)
    ∷ (20168, 3)
    ∷ (20176, 35000)
    ∷ (20200, 3)
    ∷ (20208, 36000)
    ∷ (20232, 3)
    ∷ (20240, 37000)
    ∷ (20264, 3)
    ∷ (20272, 38000)
    ∷ (20296, 3)
    ∷ (20304, 39000)
    ∷ (20328, 3)
    ∷ (20336, 40000)
    ∷ (20360, 3)
    ∷ (20368, 41000)
    ∷ []

abbrev list_cells : ℕ → List Item → List (ℕ × ℕ)
list_cells b [] = []
list_cells b (x ∷ l) = (b, cell_of addresses x) ∷ list_cells (b + 8) l

-- The word at 800 is called "ab", the one at 832, before it in the dictionary, "a".
abbrev dictionary : List (ℕ × ℕ)
dictionary = (800, 920) ∷ (824, 832) ∷ (832, 928) ∷ (856, 0) ∷ (920, 0x6261) ∷ (928, 0x61) ∷ []

unfoldable pub memory : ℕ → Option ℕ
unfolding body Input.is_space Input.is_newline Arrays.pick Dictionary.dict_entry_name
    Dictionary.dict_entry_next Dictionary.byte_string_equals4 Dictionary.byte_string_equals3
    Dictionary.lookup Arrays.nseq Arrays.swap_places Arrays.reverse3 Arrays.reverse
memory = table (
    words
    ++ (dictionary
        ++ (list_cells 30000 Input.is_space
            ++ (list_cells 31000 Input.is_newline
                ++ (list_cells 32000 Arrays.pick
                    ++ (list_cells 33000 Dictionary.dict_entry_name
                        ++ (list_cells 34000 Dictionary.dict_entry_next
                            ++ (list_cells 35000 Dictionary.byte_string_equals4
                                ++ (list_cells 36000 Dictionary.byte_string_equals3
                                    ++ (list_cells 37000 Dictionary.lookup
                                        ++ (list_cells 38000 Arrays.nseq
                                            ++ (list_cells 39000 Arrays.swap_places
                                                ++ (list_cells 40000 Arrays.reverse3
                                                    ++ list_cells 41000 Arrays.reverse)))))))))))))

abbrev pub setting : Setting
setting = record { host = host; area = area; addresses = addresses; memory = memory; last = 0 }
