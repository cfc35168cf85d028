-- ===== src/Interp/Turned.antt =====
-- Lists turned round from their ends, as reverse/3 of misc/c/c4-interp.c does it, and cells of a
-- list by their places.
use mathlib.Core.Path.{subst}
use mathlib.Core.List.{reverse, reverse-cons, reverse-append}
use north_arm.Prelude.{
  ℕ, zero, suc, ◌+◌, ◌<◌, ◌≤◌, ◌≡◌, ◌∙◌, sym, refl, ap, some, List, [], ◌∷◌, ◌++◌, length,
  length-append, get_elem?, set, arith,
}

pub data Turned : List ℕ → List ℕ → Type 0 where
  single : (x : ℕ) → Turned (x ∷ []) (x ∷ [])
  pair : (x y : ℕ) → Turned (x ∷ y ∷ []) (y ∷ x ∷ [])
  wrap :
      (x y : ℕ) {w w' : List ℕ} → Turned w w' → Turned (x ∷ (w ++ (y ∷ []))) (y ∷ (w' ++ (x ∷ [])))

pub Turned-pos : {w w' : List ℕ} → Turned w w' → 0 < length w
Turned-pos (single x) = omega arith
Turned-pos (pair x y) = omega arith
Turned-pos (wrap x y t) = omega arith

pub Turned-length : {w w' : List ℕ} → Turned w w' → length w' ≡ length w
Turned-length (single x) = refl
Turned-length (pair x y) = refl
Turned-length (wrap x y {w} {w'} t) =
    omega (arith, Turned-length t, length-append w (y ∷ []), length-append w' (x ∷ []))

data Ends : List ℕ → Type 0 where
  ends : (w : List ℕ) (y : ℕ) → Ends (w ++ (y ∷ []))

last_of : (x : ℕ) (xs : List ℕ) → Ends (x ∷ xs)
last_of x [] = ends [] x
last_of x (y ∷ xs) = more (last_of y xs)
  where
    more : {l : List ℕ} → Ends l → Ends (x ∷ l)
    more (ends w z) = ends (x ∷ w) z

around :
    (x y : ℕ) (w : List ℕ)
    → Turned w (reverse w)
    → Turned (x ∷ (w ++ (y ∷ []))) (reverse (x ∷ (w ++ (y ∷ []))))
around x y w t =
    subst (Turned (x ∷ (w ++ (y ∷ []))))
      (sym (reverse-cons x (w ++ (y ∷ [])) ∙ ap (λ l. l ++ (x ∷ [])) (reverse-append w (y ∷ []))))
      (wrap x y t)

from_ends :
    (n x : ℕ)
    → ((v : ℕ) (w : List ℕ) → length w ≤ n → Turned (v ∷ w) (reverse (v ∷ w)))
    → {l : List ℕ} → Ends l
    → length l ≤ suc n
    → Turned (x ∷ l) (reverse (x ∷ l))
from_ends n x shorter (ends [] z) h = pair x z
from_ends n x shorter (ends (v ∷ w) z) h =
    around x z (v ∷ w) (shorter v w (omega (arith, length-append w (z ∷ []))))

pub Turned-reverse : (n x : ℕ) (xs : List ℕ) → length xs ≤ n → Turned (x ∷ xs) (reverse (x ∷ xs))
Turned-reverse n x [] h = single x
Turned-reverse zero x (y ∷ xs) h = absurd (omega arith)
Turned-reverse (suc n) x (y ∷ xs) h = from_ends n x (Turned-reverse n) (last_of y xs) (omega arith)

-- Cells after the first ones.
pub get-append :
    (pre l : List ℕ) (k i : ℕ) {v : ℕ}
    → i ≡ length pre + k
    → get_elem? l k ≡ some v
    → get_elem? (pre ++ l) i ≡ some v
get-append [] l k i {v} e h = subst (λ j. get_elem? l j ≡ some v) (omega arith) h
get-append (p ∷ pre) l k zero e h = absurd (omega arith)
get-append (p ∷ pre) l k (suc i) e h = get-append pre l k i (omega arith) h

pub set-append :
    (pre l : List ℕ) (k i v : ℕ) → i ≡ length pre + k → set (pre ++ l) i v ≡ pre ++ set l k v
set-append [] l k i v e = ap (λ j. set l j v) (omega arith)
set-append (p ∷ pre) l k zero v e = absurd (omega arith)
set-append (p ∷ pre) l k (suc i) v e = ap (λ z. p ∷ z) (set-append pre l k i v (omega arith))

module _ {xs : List ℕ} (pre : List ℕ) (x : ℕ) where
  -- Where `xs` has x after `pre`.
  pub get_first : (l : List ℕ) → xs ≡ pre ++ (x ∷ l) → get_elem? xs (length pre) ≡ some x
  get_first l e =
      subst (λ z. get_elem? z (length pre) ≡ some x) (sym e)
        (get-append pre (x ∷ l) 0 (length pre) (omega arith) refl)

  -- Where it has y as well, after `mid`.
  module _ (mid : List ℕ) (y : ℕ) (post : List ℕ) (i : ℕ)
      (e : xs ≡ pre ++ (x ∷ (mid ++ (y ∷ post)))) (there : i ≡ length pre + suc (length mid)) where
    pub get_last : get_elem? xs i ≡ some y
    get_last =
        subst (λ z. get_elem? z i ≡ some y) (sym e)
          (get-append pre (x ∷ (mid ++ (y ∷ post))) (suc (length mid)) i there
            (get-append mid (y ∷ post) 0 (length mid) (omega arith) refl))

    pub set_ends : set (set xs i x) (length pre) y ≡ pre ++ (y ∷ (mid ++ (x ∷ post)))
    set_ends =
        ap (λ z. set (set z i x) (length pre) y) e
        ∙ ap (λ z. set z (length pre) y)
            (set-append pre (x ∷ (mid ++ (y ∷ post))) (suc (length mid)) i x there
              ∙ ap (λ z. pre ++ (x ∷ z)) (set-append mid (y ∷ post) 0 (length mid) x (omega arith)))
        ∙ set-append pre (x ∷ (mid ++ (x ∷ post))) 0 (length pre) y (omega arith)

  pub set_same :
      (l : List ℕ) → xs ≡ pre ++ (x ∷ l) → set (set xs (length pre) x) (length pre) x ≡ xs
  set_same l e =
      let again = λ (z : List ℕ) (h : z ≡ pre ++ (x ∷ l)).
        ap (λ t. set t (length pre) x) h ∙ set-append pre (x ∷ l) 0 (length pre) x (omega arith) in
      again (set xs (length pre) x) (again xs e) ∙ sym e
