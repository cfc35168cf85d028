-- ===== src/UnixIo/Lines.antt =====
-- What read and write of misc/c/unix_io.h do with a line of input.
use north_arm.Prelude.{
  ℕ, zero, suc, ◌+◌, ◌≤◌, ◌<◌, ◌≡◌, ◌≢◌, ◌⊎◌, inl, inr, ◌∙◌, refl, ap, true, Option, List, [], ◌∷◌,
  ◌++◌, ◌^◌, map, length, arith, ==-ne,
}
use mathlib.Core.List.{append_assoc, append-nil}
use north_arm.Machine.{Machine, Result, and_then, Out, bytes, done, ◌>>=◌}
use north_arm.Bytes.{with_byte_at, load_byte_lem, store_byte_lem}
use north_arm.Bytes.Copies.{Stands, Stands-with_byte_at, Leaves, Leaves-nil, Leaves-cons}
use north_arm.UnixIo.{read_loop, read, getchar, take_input, write_loop, write, putchar, to_int}

pub to_int_small : (i : ℕ) → i < 2 ^ 31 → to_int i ≡ i
unfolding to_int
to_int_small i h = ground arith

-- Each byte goes out by a putchar of its own.
abbrev pub written : List ℕ → List Out
written bs = map (λ b. bytes (b ∷ [])) bs

pub write_loop_lem :
    (bs : List ℕ) (data_at i p k : ℕ) (m : Machine)
    → p ≡ data_at + i
    → k ≡ i + length bs
    → k < 2 ^ 31
    → Stands m.cells p bs
    → m.stdout_ok ≡ true
    → write_loop data_at (length bs) i m ≡ done k (record m { output = m.output ++ written bs })
unfolding write_loop putchar
write_loop_lem [] data_at i p k m e1 e2 small s ok =
    ground (arith, to_int_small i, append-nil m.output)
write_loop_lem (b ∷ bs) data_at i p k m e1 e2 small (at_p, s) ok = ground (
  arith,
  load_byte_lem m p b at_p,
  append_assoc m.output (bytes (b ∷ []) ∷ []) (written bs),
  write_loop_lem bs data_at (i + 1) (p + 1) k
      (record m { output = m.output ++ (bytes (b ∷ []) ∷ []) }) (omega arith) (omega arith) small s
      ok,
)

pub write_lem :
    (bs : List ℕ) (data_at : ℕ) (m : Machine)
    → length bs < 2 ^ 31
    → Stands m.cells data_at bs
    → m.stdout_ok ≡ true
    → write data_at (length bs) m ≡ done (length bs) (record m { output = m.output ++ written bs })
unfolding write
write_lem bs data_at m small s ok =
    write_loop_lem bs data_at 0 data_at (length bs) m (omega arith) (omega arith) small s ok

-- No character but the last is a newline, and all are bytes.
abbrev pub OneLine : List ℕ → Type 0
OneLine [] = Unit {0}
OneLine (x ∷ []) = x < 256
OneLine (x ∷ y ∷ ys) = (x < 256) × (x ≢ b'\n') × OneLine (y ∷ ys)

abbrev pub last : ℕ → List ℕ → ℕ
last c [] = c
last c (x ∷ xs) = last x xs

-- Why reading stops after the characters xs: n of them are read, or the last, c if there is none,
-- ends the line, or no input is left.
abbrev pub Stops : (n c : ℕ) (xs rest : List ℕ) → Type 0
Stops n c xs rest = (length xs ≡ n) ⊎ ((length xs < n) × ((last c xs ≡ b'\n') ⊎ (rest ≡ [])))

OneLine-head : (c x : ℕ) (xs : List ℕ) → OneLine (c ∷ x ∷ xs) → (c ≢ b'\n') × (x < 256)
OneLine-head c x [] (h, ne, l) = (ne, l)
OneLine-head c x (y ∷ ys) (h, ne, o) = (ne, o.0)

OneLine-tail : (c x : ℕ) (xs : List ℕ) → OneLine (c ∷ x ∷ xs) → OneLine (x ∷ xs)
OneLine-tail c x xs (h, ne, l) = l

Stops-tail : (n c x : ℕ) (xs rest : List ℕ) → Stops (suc n) c (x ∷ xs) rest → Stops n x xs rest
Stops-tail n c x xs rest (inl e) = inl (omega arith)
Stops-tail n c x xs rest (inr (h, e)) = inr (omega arith, e)

-- After the character c, the characters xs are stored at p, over us.
read_loop_lem :
    (xs us rest : List ℕ) (data_at n i c p k : ℕ) (m : Machine)
    → m.input ≡ xs ++ rest
    → OneLine (c ∷ xs)
    → Stops n c xs rest
    → 1 ≤ k
    → Stands m.cells p us
    → length us ≡ length xs
    → p ≡ data_at + i
    → k ≡ i + length xs
    → k < 2 ^ 31
    → Leaves (record m { input = rest }) k p xs (read_loop data_at n i c m)
unfolding read_loop getchar take_input
read_loop_lem [] us rest data_at zero i c p k m e o stops some_read s l e1 e2 small =
    Leaves-nil (record m { input = rest }) k p (read_loop data_at 0 i c m)
      (ground (arith, to_int_small i))
read_loop_lem [] us rest data_at (suc n) i c p k m e o (inl q) some_read s l e1 e2 small =
    absurd (omega arith)
read_loop_lem [] us rest data_at (suc n) i c p k m e o (inr (h, inl q)) some_read s l e1 e2 small =
    Leaves-nil (record m { input = rest }) k p (read_loop data_at (suc n) i c m)
      (ground (arith, to_int_small i))
read_loop_lem [] us rest data_at (suc n) i c p k m e o (inr (h, inr q)) some_read s l e1 e2 small =
    Leaves-nil (record m { input = rest }) k p (read_loop data_at (suc n) i c m)
      (ground (arith, to_int_small i))
read_loop_lem (x ∷ xs) [] rest data_at n i c p k m e o stops some_read s l e1 e2 small =
    absurd (omega arith)
read_loop_lem (x ∷ xs) (u ∷ us) rest data_at zero i c p k m e o stops some_read s l e1 e2 small =
    absurd (omega arith)
read_loop_lem (x ∷ xs) (u ∷ us) rest data_at (suc n) i c p k m e o stops some_read (at_p, s) l e1 e2
      small =
    Leaves-cons (record m { input = rest }) k p u x xs (read_loop data_at (suc n) i c m)
      (read_loop data_at n (i + 1) x
        (record m { cells = with_byte_at m.cells p x; input = xs ++ rest }))
      at_p (OneLine-head c x xs o).1
      (ground (
        arith,
        ==-ne (OneLine-head c x xs o).0,
        store_byte_lem (record m { input = xs ++ rest }) p u x at_p,
      ))
      (read_loop_lem xs us rest data_at n (i + 1) x (p + 1) k
        (record m { cells = with_byte_at m.cells p x; input = xs ++ rest }) refl
        (OneLine-tail c x xs o) (Stops-tail n c x xs rest stops) some_read
        (Stands-with_byte_at us m.cells (p + 1) p x (inl (omega arith)) s) (omega arith)
        (omega arith) (omega arith) small)

-- With input that starts with the non-empty bytes xs, a newline at most at their end, where
-- reading stops after them (len bytes, a newline or no more input) and room for them at data,
-- read returns their number, stores them at data, leaves the rest of the input and changes no
-- other byte.
pub read_lem :
    (x : ℕ) (xs us rest : List ℕ) (data_at n : ℕ) (m : Machine)
    → m.input ≡ (x ∷ xs) ++ rest
    → OneLine (x ∷ xs)
    → Stops n 0 (x ∷ xs) rest
    → Stands m.cells data_at us
    → length us ≡ length (x ∷ xs)
    → length (x ∷ xs) < 2 ^ 31
    → Leaves (record m { input = rest }) (length (x ∷ xs)) data_at (x ∷ xs) (read data_at n m)
unfolding read
read_lem x xs us rest data_at n m e o stops s l small =
    read_loop_lem (x ∷ xs) us rest data_at n 0 0 data_at (length (x ∷ xs)) m e
      (omega arith, omega arith, o) stops (omega arith) s l (omega arith) (omega arith) small

-- What is left once bytes have been read into memory and written from there.
abbrev pub Echoes : Machine → List ℕ → List ℕ → Result ℕ → Type 0
Echoes m xs rest result =
    (cells : ℕ → Option ℕ) × (result
      ≡ done (length xs)
          (record m { cells = cells; input = rest; output = m.output ++ written xs }))

-- With input that starts with the non-empty bytes xs, fewer than 2^31 and with a newline at most
-- at their end, where reading stops after them (len bytes, a newline or no more input) and room
-- for them at data: read with len followed by write of as many bytes as it returned prints
-- exactly xs and leaves the rest of the input, if putchar succeeds.
pub read-write :
    (x : ℕ) (xs us rest : List ℕ) (data_at n : ℕ) (m : Machine)
    → m.input ≡ (x ∷ xs) ++ rest
    → OneLine (x ∷ xs)
    → Stops n 0 (x ∷ xs) rest
    → Stands m.cells data_at us
    → length us ≡ length (x ∷ xs)
    → length (x ∷ xs) < 2 ^ 31
    → m.stdout_ok ≡ true
    → Echoes m (x ∷ xs) rest ((read data_at n >>= λ k. write data_at k) m)
read-write x xs us rest data_at n m e o stops s l small ok =
    let r = read_lem x xs us rest data_at n m e o stops s l small in
    (
      r.cells,
      ap (λ (z : Result ℕ). and_then z (λ k. write data_at k)) r.returns
          ∙ write_lem (x ∷ xs) data_at (record m { input = rest; cells = r.cells }) small r.written
              ok,
    )
