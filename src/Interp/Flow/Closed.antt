-- ===== src/Interp/Flow/Closed.antt =====
-- Control stays inside each word list of misc/c/c4-interp.c.
use north_arm.Prelude.{
  ℕ, zero, suc, ◌+◌, ◌≡◌, ◌<◌, refl, Bool, true, false, not, ◌&&◌, ◌||◌, Option, none, some, List,
  length, arith, ◌==◌, ltb, inl, inr, Bool-cases,
}
use north_arm.Interp.Item.{Item, Colon}
use north_arm.Interp.Display
use north_arm.Interp.Input
use north_arm.Interp.Tokens
use north_arm.Interp.Dictionary
use north_arm.Interp.Arrays
use north_arm.Interp.Outer
use north_arm.Interp.Body.{body}
use north_arm.Interp.Flow.{
  starts, plain, pushed, Instruction, ends, step, jumps, branches, unknown, instruction, items_from,
  target, lands, goes, Reaches, entry, go,
}

abbrev pub all_below : ℕ → (ℕ → Bool) → Bool
all_below zero f = true
all_below (suc n) f = f n && all_below n f

pub all_below_lem : (n p : ℕ) (f : ℕ → Bool) → p < n → all_below n f ≡ true → f p ≡ true
all_below_lem zero p f h e = absurd (omega arith)
all_below_lem (suc n) p f h e = elim (Bool-cases (p == n)) [
  | inl same ↦ ground arith
  | inr other ↦ ground (arith, all_below_lem n p f)
]

-- Whether an instruction starts at a place below `n`.
abbrev inner : List Item → ℕ → ℕ → Bool
inner l n p = starts 0 l p && ltb p n

abbrev inner_at : List Item → ℕ → Option ℕ → Bool
inner_at l n none = false
inner_at l n (some t) = inner l n t

-- Every place that the instruction at `p` can go to is the start of one below `n`.
abbrev fine : List Item → ℕ → ℕ → Instruction → Bool
fine l n p ends = true
fine l n p (step k) = inner l n (p + k)
fine l n p (jumps k) = inner_at l n (target p k)
fine l n p (branches k) = inner l n (p + 3) && inner_at l n (target p k)
fine l n p unknown = false

fine-lands :
    (l : List Item) (n : ℕ) (t : Option ℕ) (q : ℕ)
    → inner_at l n t ≡ true
    → lands t q ≡ true
    → inner l n q ≡ true
fine-lands l n none q e h = cc
fine-lands l n (some t) q e h = ground arith

fine-goes :
    (l : List Item) (n p q : ℕ) (i : Instruction)
    → fine l n p i ≡ true
    → goes i p q ≡ true
    → inner l n q ≡ true
unfolding goes
fine-goes l n p q ends e h = cc
fine-goes l n p q (step k) e h = ground arith
fine-goes l n p q (jumps k) e h = fine-lands l n (target p k) q e h
fine-goes l n p q (branches k) e h = ground (arith, fine-lands l n (target p k) q)
fine-goes l n p q unknown e h = cc

abbrev fine_at : List Item → ℕ → ℕ → Bool
fine_at l n p = not (inner l n p) || fine l n p (instruction (items_from l p))

-- Control stays among the first `n` items.
abbrev pub closed : List Item → ℕ → Bool
closed l n = inner l n 0 && all_below n (fine_at l n)

pub inner-starts : (l : List Item) (n p : ℕ) → inner l n p ≡ true → starts 0 l p ≡ true
inner-starts l n p e = ground arith

inner-lt : (l : List Item) (n p : ℕ) → inner l n p ≡ true → p < n
inner-lt l n p e = ground arith

pub closed-starts :
    (l : List Item) (n : ℕ) → closed l n ≡ true → {p : ℕ} → Reaches l p → inner l n p ≡ true
closed-starts l n e entry = ground arith
closed-starts l n e (go {p} {q} r h) =
    let here = closed-starts l n e r in
    let whole = all_below_lem n p (fine_at l n) (inner-lt l n p here) (ground arith) in
    fine-goes l n p q (instruction (items_from l p)) (ground arith) h

body-closed : (w : Colon) → closed (body w) (length (body w)) ≡ true
unfolding body starts items_from plain pushed Display.words1 Display.words Display.nl Display.dot
    Display.memdump Display.dump_stack Display.prompt Display.mem_used Display.mem_info
    Input.read_byte Input.is_space Input.is_newline Input.read_line3 Input.null_terminate
    Input.refill_input_buffer Input.input_buffer_read_byte Tokens.eat_spaces Tokens.read_token3
    Tokens.read_token Dictionary.dict_entry_name Dictionary.dict_entry_code
    Dictionary.dict_entry_data Dictionary.dict_entry_next Dictionary.byte_string_equals4
    Dictionary.byte_string_equals3 Dictionary.lookup Dictionary.quote Arrays.pick Arrays.swap_places
    Arrays.reverse3 Arrays.reverse Arrays.nseq Outer.interp_loop Outer.rbracket Outer.compile
    Outer.lbracket Outer.stack_allot Outer.interp Outer.load Outer.boot
body-closed Colon.words1 = refl
body-closed Colon.words = refl
body-closed Colon.pick = refl
body-closed Colon.nl = refl
body-closed Colon.dot = refl
body-closed Colon.memdump = refl
body-closed Colon.dump_stack = refl
body-closed Colon.prompt = refl
body-closed Colon.read_byte = refl
body-closed Colon.is_space = refl
body-closed Colon.is_newline = refl
body-closed Colon.read_line3 = refl
body-closed Colon.null_terminate = refl
body-closed Colon.refill_input_buffer = refl
body-closed Colon.input_buffer_read_byte = refl
body-closed Colon.eat_spaces = refl
body-closed Colon.read_token3 = refl
body-closed Colon.read_token = refl
body-closed Colon.dict_entry_name = refl
body-closed Colon.dict_entry_code = refl
body-closed Colon.dict_entry_data = refl
body-closed Colon.dict_entry_next = refl
body-closed Colon.byte_string_equals4 = refl
body-closed Colon.byte_string_equals3 = refl
body-closed Colon.lookup = refl
body-closed Colon.quote = refl
body-closed Colon.swap_places = refl
body-closed Colon.reverse3 = refl
body-closed Colon.reverse = refl
body-closed Colon.nseq = refl
body-closed Colon.interp_loop = refl
body-closed Colon.rbracket = refl
body-closed Colon.compile = refl
body-closed Colon.lbracket = refl
body-closed Colon.stack_allot = refl
body-closed Colon.interp = refl
body-closed Colon.load = refl
body-closed Colon.mem_used = refl
body-closed Colon.mem_info = refl
body-closed Colon.boot = refl

-- Wherever control comes to in the list of a word of c4-interp.c or c4-words-def.c, an
-- instruction of that list starts.
pub Reaches-starts : (w : Colon) {p : ℕ} → Reaches (body w) p → starts 0 (body w) p ≡ true
Reaches-starts w {p} r =
    inner-starts (body w) (length (body w)) p
      (closed-starts (body w) (length (body w)) (body-closed w) r)
