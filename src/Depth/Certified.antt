-- ===== src/Depth/Certified.antt =====
-- The table of depths agrees with the word lists of misc/c/c4-interp.c and
-- misc/c/c4-words-def.c, item by item.
use mathlib.Core.Path.{subst}
use north_arm.Prelude.{
  ℕ, zero, suc, ◌+◌, ◌-◌, ◌≡◌, ◌<◌, refl, Bool, true, false, not, ◌&&◌, ◌||◌, Option, none, some,
  List, [], ◌∷◌, length, arith, ◌==◌, ltb, leb,
}
use north_arm.Interp.Item.{Item, Colon}
use north_arm.Interp.Display
use north_arm.Interp.Input
use north_arm.Interp.Tokens
use north_arm.Interp.Dictionary
use north_arm.Interp.Arrays
use north_arm.Interp.Outer
use north_arm.Interp.Body.{body}
use north_arm.Interp.Flow.{
  plain, pushed, Instruction, ends, step, jumps, branches, unknown, instruction, items_from, target,
  lands, goes,
}
use north_arm.Interp.Flow.Closed.{all_below, all_below_lem}
use north_arm.Depth.Lists.{moves, called, returns}
use north_arm.Depth.Types.{type_of}
use north_arm.Depth.Table.{depths}

abbrev nth : List ℕ → ℕ → ℕ
nth [] p = 0
nth (x ∷ l) zero = x
nth (x ∷ l) (suc p) = nth l p

abbrev pub depth_at : Colon → ℕ → ℕ
depth_at c p = nth (depths c) p

abbrev pub reached : Colon → ℕ → Bool
reached c p = ltb 0 (depth_at c p)

nth-lt : (l : List ℕ) (p : ℕ) → ltb 0 (nth l p) ≡ true → p < length l
nth-lt [] p e = cc
nth-lt (x ∷ l) zero e = omega arith
nth-lt (x ∷ l) (suc p) e = omega (arith, nth-lt l p e)

-- The word has the depth `m` at place `q`.
abbrev pub has : Colon → ℕ → ℕ → Bool
has c m q = reached c q && depth_at c q == m

abbrev has_at : Colon → ℕ → Option ℕ → Bool
has_at c m none = false
has_at c m (some t) = has c m t

-- It has the depth `m` wherever the instruction at place `p` goes.
abbrev pub agrees : Colon → ℕ → ℕ → Instruction → Bool
agrees c m p ends = true
agrees c m p (step k) = has c m (p + k)
agrees c m p (jumps k) = has_at c m (target p k)
agrees c m p (branches k) = has c m (p + 3) && has_at c m (target p k)
agrees c m p unknown = false

-- What the place of an instruction must satisfy, by what the instruction is.
abbrev pub fine_return : ℕ → ℕ → Bool → Bool
fine_return b d true = d == suc b
fine_return b d false = true

abbrev pub fine_moves : Colon → ℕ → ℕ → Instruction → Option (ℕ × ℕ) → Bool
fine_moves c p d i none = true
fine_moves c p d i (some (x, y)) = leb x d && agrees c (d - x + y) p i

abbrev pub fine_type : Colon → ℕ → ℕ → Option (ℕ × ℕ) → Bool
fine_type c p d none = false
fine_type c p d (some (x, y)) = leb x d && has c (d - x + y) (suc p)

abbrev pub fine_call : Colon → ℕ → ℕ → Option Colon → Bool
fine_call c p d none = true
fine_call c p d (some c') = fine_type c p d (type_of c')

abbrev pub is_some : {A : Type 0} → Option A → Bool
is_some none = false
is_some (some a) = true

-- A known instruction: it returns, it calls, or it moves the stack by fixed numbers.
abbrev pub is_known : List Item → Bool
is_known l = returns l || is_some (called l) || is_some (moves l)

abbrev pub fine_list : Colon → ℕ → ℕ → ℕ → List Item → Bool
fine_list c b p d l =
    is_known l
    && fine_return b d (returns l)
    && fine_call c p d (called l)
    && fine_moves c p d (instruction l) (moves l)

abbrev fine_at : Colon → ℕ → ℕ → Bool
fine_at c b p = not (reached c p) || fine_list c b p (depth_at c p) (items_from (body c) p)

abbrev certified : Colon → Option (ℕ × ℕ) → Bool
certified c none = true
certified c (some (a, b)) = has c (suc a) 0 && all_below (length (depths c)) (fine_at c b)

has-lands :
    (c : Colon) (m q : ℕ) (t : Option ℕ) → has_at c m t ≡ true → lands t q ≡ true → has c m q ≡ true
has-lands c m q none e h = cc
has-lands c m q (some t) e h = ground arith

pub agrees-has :
    (c : Colon) (m p q : ℕ) (i : Instruction)
    → agrees c m p i ≡ true
    → goes i p q ≡ true
    → has c m q ≡ true
unfolding goes
agrees-has c m p q ends e h = cc
agrees-has c m p q (step k) e h = ground arith
agrees-has c m p q (jumps k) e h = has-lands c m q (target p k) e h
agrees-has c m p q (branches k) e h = ground (arith, has-lands c m q (target p k))
agrees-has c m p q unknown e h = cc

word-certified : (c : Colon) → certified c (type_of c) ≡ true
unfolding body items_from plain pushed Display.words1 Display.words Display.nl Display.dot
    Display.memdump Display.dump_stack Display.prompt Display.mem_used Display.mem_info
    Input.read_byte Input.is_space Input.is_newline Input.read_line3 Input.null_terminate
    Input.refill_input_buffer Input.input_buffer_read_byte Tokens.eat_spaces Tokens.read_token3
    Tokens.read_token Dictionary.dict_entry_name Dictionary.dict_entry_code
    Dictionary.dict_entry_data Dictionary.dict_entry_next Dictionary.byte_string_equals4
    Dictionary.byte_string_equals3 Dictionary.lookup Arrays.pick Arrays.swap_places Arrays.reverse3
    Arrays.reverse Outer.rbracket Outer.lbracket
word-certified Colon.words1 = refl
word-certified Colon.words = refl
word-certified Colon.pick = refl
word-certified Colon.nl = refl
word-certified Colon.dot = refl
word-certified Colon.memdump = refl
word-certified Colon.dump_stack = refl
word-certified Colon.prompt = refl
word-certified Colon.read_byte = refl
word-certified Colon.is_space = refl
word-certified Colon.is_newline = refl
word-certified Colon.read_line3 = refl
word-certified Colon.null_terminate = refl
word-certified Colon.refill_input_buffer = refl
word-certified Colon.input_buffer_read_byte = refl
word-certified Colon.eat_spaces = refl
word-certified Colon.read_token3 = refl
word-certified Colon.read_token = refl
word-certified Colon.dict_entry_name = refl
word-certified Colon.dict_entry_code = refl
word-certified Colon.dict_entry_data = refl
word-certified Colon.dict_entry_next = refl
word-certified Colon.byte_string_equals4 = refl
word-certified Colon.byte_string_equals3 = refl
word-certified Colon.lookup = refl
word-certified Colon.quote = refl
word-certified Colon.swap_places = refl
word-certified Colon.reverse3 = refl
word-certified Colon.reverse = refl
word-certified Colon.nseq = refl
word-certified Colon.interp_loop = refl
word-certified Colon.rbracket = refl
word-certified Colon.compile = refl
word-certified Colon.lbracket = refl
word-certified Colon.stack_allot = refl
word-certified Colon.interp = refl
word-certified Colon.load = refl
word-certified Colon.mem_used = refl
word-certified Colon.mem_info = refl
word-certified Colon.boot = refl

and-left : (x y : Bool) → x && y ≡ true → x ≡ true
and-left x y e = ground arith

and-right : (x y : Bool) → x && y ≡ true → y ≡ true
and-right x y e = ground arith

or-not : (x y : Bool) → x ≡ true → not x || y ≡ true → y ≡ true
or-not x y h e = ground arith

-- The table gives a typed word its frame on top of what it takes, and every place below the end.
pub table-entry : (c : Colon) (a b : ℕ) → type_of c ≡ some (a, b) → has c (suc a) 0 ≡ true
table-entry c a b t = and-left _ _ (subst (λ z. certified c z ≡ true) t (word-certified c))

pub table-place :
    (c : Colon) (a b p : ℕ)
    → type_of c ≡ some (a, b)
    → reached c p ≡ true
    → fine_list c b p (depth_at c p) (items_from (body c) p) ≡ true
table-place c a b p t here =
    let all = and-right _ _ (subst (λ z. certified c z ≡ true) t (word-certified c)) in
    or-not _ _ here
      (all_below_lem (length (depths c)) p (fine_at c b) (nth-lt (depths c) p here) all)
