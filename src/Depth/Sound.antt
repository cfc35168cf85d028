-- ===== src/Depth/Sound.antt =====
-- The word lists of misc/c/c4-interp.c and misc/c/c4-words-def.c keep to their types.
use mathlib.Core.Path.{subst}
use north_arm.Prelude.{
  ℕ, suc, ◌+◌, ◌-◌, ◌≡◌, ◌≤◌, refl, Bool, true, false, Option, none, some, arith, ◌||◌,
}
use north_arm.Interp.Item.{Colon}
use north_arm.Interp.Body.{body}
use north_arm.Interp.Flow.{instruction, items_from, goes}
use north_arm.Depth.Lists.{moves, called, returns, At, begins, goes_on, comes_back}
use north_arm.Depth.Types.{type_of}
use north_arm.Depth.Certified.{
  depth_at, reached, agrees-has, fine_return, fine_call, fine_moves, fine_type, is_some, is_known,
  table-entry, table-place,
}

-- What the table says of one place.
record Placed (c : Colon) (b p : ℕ) : Type 0 where
  known : is_known (items_from (body c) p) ≡ true
  return : fine_return b (depth_at c p) (returns (items_from (body c) p)) ≡ true
  call : fine_call c p (depth_at c p) (called (items_from (body c) p)) ≡ true
  move :
      fine_moves c p
        (depth_at c p)
        (instruction (items_from (body c) p))
        (moves (items_from (body c) p))
      ≡ true

placed : (c : Colon) (a b p : ℕ) → type_of c ≡ some (a, b) → reached c p ≡ true → Placed c b p
placed c a b p t here =
    let all = table-place c a b p t here in
    record { known = ground arith; return = ground arith; call = ground arith; move = ground arith }

-- Before the next item, with `r` more cells.
moved :
    (c : Colon) (p q d r x y : ℕ) {o : Option (ℕ × ℕ)}
    → o ≡ some (x, y)
    → fine_moves c p (depth_at c p) (instruction (items_from (body c) p)) o ≡ true
    → goes (instruction (items_from (body c) p)) p q ≡ true
    → d ≡ depth_at c p + r
    → (d - x + y ≡ depth_at c q + r) × (reached c q ≡ true)
moved c p q d r x y e fine g same =
    let checked =
      subst (λ z. fine_moves c p (depth_at c p) (instruction (items_from (body c) p)) z ≡ true) e
        fine in
    let there =
      agrees-has c (depth_at c p - x + y) p q (instruction (items_from (body c) p)) (ground arith)
        g in
    (ground arith, ground arith)

-- A called word that keeps to its type.
answered :
    (c : Colon) (p d r x y m : ℕ) {o : Option (ℕ × ℕ)}
    → o ≡ some (x, y)
    → fine_type c p (depth_at c p) o ≡ true
    → d ≡ depth_at c p + r
    → m ≡ y + (depth_at c p - x + r)
    → (m ≡ depth_at c (suc p) + r) × (reached c (suc p) ≡ true)
answered c p d r x y m e fine same back =
    let checked = subst (λ z. fine_type c p (depth_at c p) z ≡ true) e fine in
    (ground arith, ground arith)

typed_call :
    (c : Colon) (p d : ℕ) (o : Option (ℕ × ℕ))
    → fine_type c p d o ≡ true
    → (x : ℕ) × (y : ℕ) × (o ≡ some (x, y)) × (x ≤ d)
typed_call c p d none e = cc
typed_call c p d (some (x, y)) e = (x, y, refl, ground arith)

-- A word that finds the cells it takes, and r more, has r more cells at each place than the table.
pub At-depth :
    (i o r : ℕ) {c : Colon} {n p d : ℕ}
    → type_of c ≡ some (i, o)
    → n ≡ i + r
    → At c n p d
    → (d ≡ depth_at c p + r) × (reached c p ≡ true)
At-depth i o r {c} t e begins = let entry = table-entry c i o t in (ground arith, ground arith)
At-depth i o r {c} t e (goes_on {p} {q} {d} {a} {b} at m g) =
    let (same, here) = At-depth i o r t e at in
    let at_place = placed c i o p t here in moved c p q d r a b m at_place.move g same
At-depth i o r {c} t e (comes_back {c'} {p} {p'} {d} {m} at to inside back) =
    let (same, here) = At-depth i o r t e at in
    let at_place = placed c i o p t here in
    let fine = subst (λ z. fine_call c p (depth_at c p) z ≡ true) to at_place.call in
    let (x, y, t', enough) = typed_call c p (depth_at c p) (type_of c') fine in
    let (same', here') = At-depth x y (depth_at c p - x + r) t' (omega arith) inside in
    let place' = placed c' x y p' t' here' in
    let left = subst (λ z. fine_return y (depth_at c' p') z ≡ true) back place'.return in
    answered c p d r x y m t' fine same (ground arith)

-- A word of c4-interp.c or c4-words-def.c that has a type (i cells in, o cells out), called with
-- i + r cells, has o + r cells under the frame whenever it comes to its return0, on every path
-- through its list and the lists that it calls.
pub return-type :
    (c : Colon) (i o r p d : ℕ)
    → type_of c ≡ some (i, o)
    → At c (i + r) p d
    → returns (items_from (body c) p) ≡ true
    → d ≡ suc (o + r)
return-type c i o r p d t at back =
    let (same, here) = At-depth i o r t refl at in
    let at_place = placed c i o p t here in
    let left = subst (λ z. fine_return o (depth_at c p) z ≡ true) back at_place.return in
    ground arith

-- What the item at a place may be: it returns, or it calls a typed word, or it moves the stack by
-- fixed numbers. It takes no cell of the `r` lowest.
pub data Ready (c : Colon) (p d r : ℕ) : Type 0 where
  at_return : returns (items_from (body c) p) ≡ true → suc r ≤ d → Ready c p d r
  at_call :
      {c' : Colon} {x y : ℕ}
      → called (items_from (body c) p) ≡ some c'
      → type_of c' ≡ some (x, y)
      → x + r ≤ d
      → Ready c p d r
  at_move : {x y : ℕ} → moves (items_from (body c) p) ≡ some (x, y) → x + r ≤ d → Ready c p d r

ready :
    (c : Colon) (p d r : ℕ) (b : Bool) (k : Option Colon) (o : Option (ℕ × ℕ))
    → returns (items_from (body c) p) ≡ b
    → called (items_from (body c) p) ≡ k
    → moves (items_from (body c) p) ≡ o
    → b || is_some k || is_some o ≡ true
    → fine_call c p (depth_at c p) k ≡ true
    → fine_moves c p (depth_at c p) (instruction (items_from (body c) p)) o ≡ true
    → reached c p ≡ true
    → d ≡ depth_at c p + r
    → Ready c p d r
ready c p d r true k o eb ek eo known call move here same = at_return eb (ground arith)
ready c p d r false (some c') o eb ek eo known call move here same =
    let (x, y, t, enough) = typed_call c p (depth_at c p) (type_of c') call in
    at_call ek t (omega arith)
ready c p d r false none (some (x, y)) eb ek eo known call move here same =
    at_move eo (ground arith)
ready c p d r false none none eb ek eo known call move here same = cc

-- Wherever control comes in the list of a word of c4-interp.c or c4-words-def.c that has a type
-- (i in, o out), called with i + r cells, the item returns, calls a word with a type, or moves
-- the stack by fixed numbers, and takes none of the r lowest cells.
pub At-Ready :
    (c : Colon) (i o r p d : ℕ) → type_of c ≡ some (i, o) → At c (i + r) p d → Ready c p d r
At-Ready c i o r p d t at =
    let (same, here) = At-depth i o r t refl at in
    let at_place = placed c i o p t here in
    ready c p d r _ _ _ refl refl refl at_place.known at_place.call at_place.move here same
