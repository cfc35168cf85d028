-- ===== src/Bytes/Copies.antt =====
-- What the loops strncpy_M and memcpy_M of misc/c/c5.c do with memory.
use north_arm.Prelude.{
  ℕ, zero, suc, ◌+◌, ◌%◌, ◌≤◌, ◌<◌, ◌≡◌, ◌≢◌, ◌⊎◌, inl, inr, ◌∙◌, refl, ap, Option, some, List, [],
  ◌∷◌, ◌++◌, length, arith, ==-ne,
}
use north_arm.Machine.{Machine, Result, done, pure}
use north_arm.Bytes.{
  byte_at, with_byte_at, load_byte_lem, store_byte_lem, byte_at-with_byte_at_same,
  byte_at-with_byte_at_other, byte_at-below,
}
use north_arm.C5.Memory.{strncpy_loop, strncpy, memcpy_loop, memcpy}

-- The bytes bs stand from `a` up.
abbrev pub Stands : (ℕ → Option ℕ) → ℕ → List ℕ → Type 0
Stands cells a [] = Unit {0}
Stands cells a (b ∷ bs) = (byte_at cells a ≡ some b) × Stands cells (a + 1) bs

-- The call returns k with bs at `out`, and every other byte as it was.
pub record Leaves (m : Machine) (k out : ℕ) (bs : List ℕ) (result : Result ℕ) : Type 0 where
  pub cells : ℕ → Option ℕ
  pub returns : result ≡ done k (record m { cells = cells })
  pub written : Stands cells out bs
  pub kept : (a : ℕ) → (a < out) ⊎ (out + length bs ≤ a) → byte_at cells a ≡ byte_at m.cells a

-- A byte written elsewhere.
pub Stands-with_byte_at :
    (bs : List ℕ) (cells : ℕ → Option ℕ) (a p b : ℕ)
    → (p < a) ⊎ (a + length bs ≤ p)
    → Stands cells a bs
    → Stands (with_byte_at cells p b) a bs
Stands-with_byte_at [] cells a p b away s = tt
Stands-with_byte_at (x ∷ bs) cells a p b away (e, s) = (
  byte_at-with_byte_at_other cells p a b (omega arith) ∙ e,
  Stands-with_byte_at bs cells (a + 1) p b (omega arith) s,
)

-- Nothing written.
pub Leaves-nil :
    (m : Machine) (k out : ℕ) (result : Result ℕ) → result ≡ done k m → Leaves m k out [] result
Leaves-nil m k out result e = record {
  cells = m.cells;
  returns = e;
  written = tt;
  kept = λ a other. refl;
}

below_mod : (b : ℕ) → b < 256 → b % 256 ≡ b
below_mod b h = omega arith

-- A byte written over u, and what follows it.
pub Leaves-cons :
    (m : Machine) (k out u b : ℕ) (bs : List ℕ) (result rest : Result ℕ)
    → byte_at m.cells out ≡ some u
    → b < 256
    → result ≡ rest
    → Leaves (record m { cells = with_byte_at m.cells out b }) k (out + 1) bs rest
    → Leaves m k out (b ∷ bs) result
Leaves-cons m k out u b bs result rest e small step l = record {
  cells = l.cells;
  returns = step ∙ l.returns;
  written = (
    l.kept out (inl (omega arith))
        ∙ byte_at-with_byte_at_same m.cells out u b e
        ∙ ap some (below_mod b small),
    l.written,
  );
  kept =
      λ a away. l.kept a (omega arith) ∙ byte_at-with_byte_at_other m.cells out a b (omega arith);
}

-- The k bytes bs at q are copied to p, over us.
memcpy_loop_lem :
    (bs us : List ℕ) (out from i p q k : ℕ) (m : Machine)
    → p ≡ out + i
    → q ≡ from + i
    → k ≡ i + length bs
    → Stands m.cells q bs
    → Stands m.cells p us
    → length us ≡ length bs
    → (p ≤ q) ⊎ (q + length bs ≤ p)
    → Leaves m k p bs (memcpy_loop out from (length bs) i m)
unfolding memcpy_loop
memcpy_loop_lem [] us out from i p q k m e1 e2 e3 s t n away =
    Leaves-nil m k p (pure i m) (ground arith)
memcpy_loop_lem (b ∷ bs) [] out from i p q k m e1 e2 e3 s t n away = absurd (omega arith)
memcpy_loop_lem (b ∷ bs) (u ∷ us) out from i p q k m e1 e2 e3 (at_q, s) (at_p, t) n away =
    Leaves-cons m k p u b bs (memcpy_loop out from (suc (length bs)) i m)
      (memcpy_loop out from (length bs) (i + 1) (record m { cells = with_byte_at m.cells p b }))
      at_p (byte_at-below m.cells q b at_q)
      (ground (arith, load_byte_lem m q b at_q, store_byte_lem m p u b at_p))
      (memcpy_loop_lem bs us out from (i + 1) (p + 1) (q + 1) k
        (record m { cells = with_byte_at m.cells p b }) (omega arith) (omega arith) (omega arith)
        (Stands-with_byte_at bs m.cells (q + 1) p b (omega arith) s)
        (Stands-with_byte_at us m.cells (p + 1) p b (omega arith) t) (omega arith) (omega arith))

-- Where the bytes at `in` can be read and as many at `out` can be written, and out does not lie
-- behind the first byte of them, memcpy_M returns count, leaves those bytes at out and changes
-- no other byte; the two ranges may overlap if out is below.
pub memcpy_lem :
    (bs us : List ℕ) (out from : ℕ) (m : Machine)
    → Stands m.cells from bs
    → Stands m.cells out us
    → length us ≡ length bs
    → (out ≤ from) ⊎ (from + length bs ≤ out)
    → Leaves m (length bs) out bs (memcpy out from (length bs) m)
unfolding memcpy
memcpy_lem bs us out from m s t n away =
    memcpy_loop_lem bs us out from 0 out from (length bs) m (omega arith) (omega arith)
      (omega arith) s t n away

abbrev pub NoZero : List ℕ → Type 0
NoZero [] = Unit {0}
NoZero (b ∷ bs) = (b ≢ 0) × NoZero bs

-- The text bs at q ends within n bytes: with a zero, or with the n-th byte.
abbrev pub EndsWithin : (ℕ → Option ℕ) → (q n : ℕ) → List ℕ → Type 0
EndsWithin cells q n bs =
    (length bs ≡ n) ⊎ ((length bs < n) × (byte_at cells (q + length bs) ≡ some 0))

EndsWithin-with_byte_at :
    (cells : ℕ → Option ℕ) (q n p b x : ℕ) (bs : List ℕ)
    → (p ≤ q) ⊎ (q + length (x ∷ bs) < p)
    → EndsWithin cells q (suc n) (x ∷ bs)
    → EndsWithin (with_byte_at cells p b) (q + 1) n bs
EndsWithin-with_byte_at cells q n p b x bs away (inl e) = inl (omega arith)
EndsWithin-with_byte_at cells q n p b x bs away (inr (h, e)) = inr (
  omega arith,
  (byte_at-with_byte_at_other cells p (q + 1 + length bs) b (omega arith)
        ∙ ap (λ (a : ℕ). byte_at cells a) (omega arith))
      ∙ e,
)

-- A zero written at the end.
Leaves-zero :
    (m : Machine) (k out u : ℕ) (result : Result ℕ)
    → byte_at m.cells out ≡ some u
    → result ≡ done k (record m { cells = with_byte_at m.cells out 0 })
    → Leaves m k out (0 ∷ []) result
Leaves-zero m k out u result e step = record {
  cells = with_byte_at m.cells out 0;
  returns = step;
  written = (byte_at-with_byte_at_same m.cells out u 0 e, tt);
  kept = λ a away. byte_at-with_byte_at_other m.cells out a 0 (omega arith);
}

-- Over us, the text bs at q is copied to p, and a zero is put after it.
strncpy_loop_lem :
    (bs us : List ℕ) (out from n i p q k : ℕ) (m : Machine)
    → p ≡ out + i
    → q ≡ from + i
    → k ≡ i + length bs
    → Stands m.cells q bs
    → NoZero bs
    → EndsWithin m.cells q n bs
    → Stands m.cells p us
    → length us ≡ length bs + 1
    → (p ≤ q) ⊎ (q + length bs < p)
    → Leaves m k p (bs ++ (0 ∷ [])) (strncpy_loop out from n i m)
unfolding strncpy_loop
strncpy_loop_lem [] [] out from n i p q k m e1 e2 e3 s z ends t l away = absurd (omega arith)
strncpy_loop_lem [] (u ∷ us) out from zero i p q k m e1 e2 e3 s z ends (at_p, t) l away =
    Leaves-zero m k p u (strncpy_loop out from 0 i m) at_p
      (ground (arith, store_byte_lem m p u 0 at_p))
strncpy_loop_lem [] (u ∷ us) out from (suc n) i p q k m e1 e2 e3 s z (inl e) (at_p, t) l away =
    absurd (omega arith)
strncpy_loop_lem [] (u ∷ us) out from (suc n) i p q k m e1 e2 e3 s z (inr (h, e)) (at_p, t) l away =
    Leaves-zero m k p u (strncpy_loop out from (suc n) i m) at_p (
      ground (
        arith,
        load_byte_lem m q 0 (ap (λ (a : ℕ). byte_at m.cells a) (omega arith) ∙ e),
        store_byte_lem m p u 0 at_p,
      ))
strncpy_loop_lem (b ∷ bs) [] out from n i p q k m e1 e2 e3 s z ends t l away = absurd (omega arith)
strncpy_loop_lem (b ∷ bs) (u ∷ us) out from zero i p q k m e1 e2 e3 s z ends t l away =
    absurd (omega arith)
strncpy_loop_lem (b ∷ bs) (u ∷ us) out from (suc n) i p q k m e1 e2 e3 (at_q, s) (nz, z) ends
      (at_p, t) l away =
    Leaves-cons m k p u b (bs ++ (0 ∷ [])) (strncpy_loop out from (suc n) i m)
      (strncpy_loop out from n (i + 1) (record m { cells = with_byte_at m.cells p b })) at_p
      (byte_at-below m.cells q b at_q)
      (ground (arith, ==-ne nz, load_byte_lem m q b at_q, store_byte_lem m p u b at_p))
      (strncpy_loop_lem bs us out from n (i + 1) (p + 1) (q + 1) k
        (record m { cells = with_byte_at m.cells p b }) (omega arith) (omega arith) (omega arith)
        (Stands-with_byte_at bs m.cells (q + 1) p b (omega arith) s) z
        (EndsWithin-with_byte_at m.cells q n p b b bs (omega arith) ends)
        (Stands-with_byte_at us m.cells (p + 1) p b (omega arith) t) (omega arith) (omega arith))

-- Where a text without a zero ends within count bytes of `in`, by a zero or as the count-th
-- byte, one byte more than its length can be written at out, and out is at or below `in` or lies
-- beyond the byte after the text: strncpy_M returns its length, writes it and a zero at out, and
-- changes no other byte; so with a text of count bytes it writes count + 1.
pub strncpy_lem :
    (bs us : List ℕ) (out from n : ℕ) (m : Machine)
    → Stands m.cells from bs
    → NoZero bs
    → EndsWithin m.cells from n bs
    → Stands m.cells out us
    → length us ≡ length bs + 1
    → (out ≤ from) ⊎ (from + length bs < out)
    → Leaves m (length bs) out (bs ++ (0 ∷ [])) (strncpy out from n m)
unfolding strncpy
strncpy_lem bs us out from n m s z ends t l away =
    strncpy_loop_lem bs us out from n 0 out from (length bs) m (omega arith) (omega arith)
      (omega arith) s z ends t l away
