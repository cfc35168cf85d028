-- ===== src/Avr/Static.antt =====
-- static_getchar of misc/c/avr.h, with STATIC_INPUT.
mod Tests
use north_arm.Prelude.{
  ℕ, zero, suc, ◌+◌, ◌<◌, ◌≤◌, ◌≡◌, ◌∙◌, sym, refl, ap, Option, none, some, List, [], ◌∷◌, ◌++◌,
  map, length, length-append, get_elem?, ltb, if◌then◌else◌, arith, true, false,
}
use mathlib.Core.List.{append_assoc, append-nil}
use north_arm.Prelude.Int.{ℤ, negsuc}
use north_arm.RingBuffer.{of_char}

-- static_input_buffer, the whole array; static_input_length; static_input_pos; and what
-- "Static read: %i %i\n" has printed, a position and a character in each line.
pub record StaticInput : Type 0 where
  pub buffer : List ℕ
  pub input_length : ℕ
  pub position : ℕ
  pub printed : List (ℕ × ℤ)

-- What avr_init does with it.
unfoldable pub restart : StaticInput → StaticInput
restart s = record s { position = 0 }

-- The call when `c` is the character at the position.
abbrev at_char : StaticInput → ℕ → ℤ × StaticInput
at_char s c =
    let s' = record s { printed = s.printed ++ ((s.position, of_char c) ∷ []) } in
    if ltb s.position s.input_length
    then (of_char c, record s' { position = s.position + 1 })
    else (negsuc 0, s')

-- `none`: the call reads past the end of the array.
unfoldable pub static_getchar : StaticInput → Option (ℤ × StaticInput)
static_getchar s = elim (get_elem? s.buffer s.position) [
  | none ↦ none
  | some c ↦ some (at_char s c)
]

-- The character of a call in front of those of the calls after it.
abbrev pub before : ℤ → Option (List ℤ × StaticInput) → Option (List ℤ × StaticInput)
before c none = none
before c (some (cs, s)) = some (c ∷ cs, s)

-- n calls one after the other.
unfoldable pub reads : ℕ → StaticInput → Option (List ℤ × StaticInput)
unfolding static_getchar
reads zero s = some ([], s)
reads (suc n) s = elim (static_getchar s) [ none ↦ none | some (c, s') ↦ before c (reads n s') ]

-- -1, k times
abbrev pub ends : ℕ → List ℤ
ends zero = []
ends (suc k) = negsuc 0 ∷ ends k

-- The lines printed for the characters from position p on.
abbrev pub lines : ℕ → List ℕ → List (ℕ × ℤ)
lines p [] = []
lines p (c ∷ cs) = (p, of_char c) ∷ lines (p + 1) cs

-- The line printed for the character y at the position p, k times.
abbrev pub again : ℕ → ℕ → ℕ → List (ℕ × ℤ)
again p y zero = []
again p y (suc k) = (p, of_char y) ∷ again p y k

get_elem?-append :
    (xs : List ℕ) (y : ℕ) (ys : List ℕ) → get_elem? (xs ++ (y ∷ ys)) (length xs) ≡ some y
get_elem?-append [] y ys = refl
get_elem?-append (x ∷ xs) y ys = get_elem?-append xs y ys

get_elem?-end : (xs : List ℕ) → get_elem? xs (length xs) ≡ none
get_elem?-end [] = refl
get_elem?-end (x ∷ xs) = get_elem?-end xs

abbrev befores : List ℤ → Option (List ℤ × StaticInput) → Option (List ℤ × StaticInput)
befores [] o = o
befores (c ∷ cs) o = before c (befores cs o)

befores-none : (xs : List ℤ) → befores xs none ≡ none
befores-none [] = refl
befores-none (x ∷ xs) = ap (before x) (befores-none xs)

abbrev at : (buffer : List ℕ) (l p : ℕ) (printed : List (ℕ × ℤ)) → StaticInput
at buffer l p printed = record {
  buffer = buffer;
  input_length = l;
  position = p;
  printed = printed;
}

module _ (buffer : List ℕ) (l : ℕ) where
  read_one :
      (p : ℕ) (out : List (ℕ × ℤ)) (c n : ℕ)
      → get_elem? buffer p ≡ some c
      → p < l
      → reads (suc n) (at buffer l p out)
        ≡ before (of_char c) (reads n (at buffer l (p + 1) (out ++ ((p, of_char c) ∷ []))))
  unfolding reads static_getchar
  read_one p out c n e inside = ground (arith, e)

  read_past :
      (p : ℕ) (out : List (ℕ × ℤ)) (n : ℕ)
      → get_elem? buffer p ≡ none
      → reads (suc n) (at buffer l p out) ≡ none
  unfolding reads static_getchar
  read_past p out n e = ground (arith, e)

  -- With ys left to read from position p.
  rest_lem :
      (ys xs zs : List ℕ) (p stop k : ℕ) (out : List (ℕ × ℤ))
      → buffer ≡ xs ++ (ys ++ zs)
      → p ≡ length xs
      → stop ≡ p + length ys
      → stop ≤ l
      → reads (length ys + k) (at buffer l p out)
        ≡ befores (map of_char ys) (reads k (at buffer l stop (out ++ lines p ys)))
  rest_lem [] xs zs p stop k out e q at_stop inside =
      ap (λ n. reads n (at buffer l p out)) (omega arith)
      ∙ ap (λ n. reads k (at buffer l n out)) (omega arith)
      ∙ ap (λ z. reads k (at buffer l stop z)) (sym (append-nil out))
  rest_lem (y ∷ ys) xs zs p stop k out e q at_stop inside =
      let line : List (ℕ × ℤ) = (p, of_char y) ∷ [] in
      let here : get_elem? buffer p ≡ some y = rw (e, q) (get_elem?-append xs y (ys ++ zs)) in
      ap (λ n. reads n (at buffer l p out)) (omega arith)
      ∙ read_one p out y (length ys + k) here (omega arith)
      ∙ ap (before (of_char y)) (
          rest_lem ys (xs ++ (y ∷ [])) zs (p + 1) stop k (out ++ line)
            (e ∙ sym (append_assoc xs (y ∷ []) (ys ++ zs)))
            (omega (arith, q, length-append xs (y ∷ []))) (omega arith) inside
          ∙ ap (λ z. befores (map of_char ys) (reads k (at buffer l stop z)))
              (append_assoc out line (lines (p + 1) ys)))

-- The record with a position and lines of its own.
abbrev stopped : StaticInput → ℕ → List (ℕ × ℤ) → StaticInput
stopped s p out = record s { position = p; printed = out }

-- Where static_input_length is the length of the whole array, as sizeof makes it, the calls of
-- static_getchar from the start that go on past the last character read beyond the array.
pub reads_past :
    (s : StaticInput) (k : ℕ)
    → s.input_length ≡ length s.buffer
    → reads (length s.buffer + suc k) (restart s) ≡ none
unfolding restart
reads_past s k l =
    rest_lem s.buffer s.input_length s.buffer [] [] 0 (length s.buffer) (suc k) s.printed
      (sym (append-nil s.buffer)) refl (omega arith) (omega arith)
    ∙ ap (befores (map of_char s.buffer)) (
        read_past s.buffer s.input_length (length s.buffer) (s.printed ++ lines 0 s.buffer) k
          (get_elem?-end s.buffer))
    ∙ befores-none (map of_char s.buffer)
