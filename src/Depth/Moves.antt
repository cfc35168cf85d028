-- ===== src/Depth/Moves.antt =====
-- Calls of misc/c/c5.c that move *sp by as many cells whenever they come back.
use north_arm.Prelude.{
  ℕ, zero, suc, ◌+◌, ◌≡◌, refl, ap, ◌==◌, [], ◌∷◌, ◌∙◌, if◌then◌else◌, true, false, none, some,
  arith,
}
use north_arm.Machine.{
  Machine, M, Result, done, exited, fault, timeout, and_then, ◌>>=◌, ◌>>◌, load_byte, store_byte,
  cell, pure, raise, set_cell,
}
use north_arm.UnixIo.{
  read_loop, read, write_loop, write, getchar, take_input, putchar, minus_one, to_int,
}
use north_arm.C5.Data
use north_arm.C5.Data.{next_op}
use north_arm.C5.Io
use north_arm.C5.Io.{c_string}

-- A call that ends makes g of *sp.
abbrev Moves : {A : Type 0} → (ℕ → ℕ) → M A → Type 0
Moves {A} g c = (m m' : Machine) (r : A) → c m ≡ done r m' → m'.sp ≡ g m.sp

abbrev Keeps : {A : Type 0} → M A → Type 0
Keeps c = Moves (λ s. s) c

Moves-bind :
    {A B : Type 0} (g k : ℕ → ℕ) (c : M A) (f : A → M B)
    → Moves g c
    → ((a : A) → Moves k (f a))
    → Moves (λ s. k (g s)) (c >>= f)
Moves-bind {A} g k c f hc hf m m' r h = go (c m) refl h
  where
    go : (x : Result A) → c m ≡ x → and_then x f ≡ done r m' → m'.sp ≡ k (g m.sp)
    go (done a m1) e q = hf a m1 m' r q ∙ ap k (hc m m1 a e)
    go (exited n m1) e q = cc
    go fault e q = cc
    go timeout e q = cc

Keeps-load_byte : (a : ℕ) → Keeps (load_byte a)
Keeps-load_byte a m m' r h = ground arith

Keeps-cell : (k : ℕ) → Keeps (cell k)
Keeps-cell k m m' r h = ground arith

Keeps-c_string : (fuel a : ℕ) → Keeps (c_string fuel a)
unfolding c_string
Keeps-c_string zero a = λ m m' r h. cc
Keeps-c_string (suc fuel) a =
    Moves-bind (λ s. s) (λ s. s) (load_byte a) _ (Keeps-load_byte a)
      (λ b.
        elim (b == 0)
          as (λ z.
            Keeps (if z then pure [] else (c_string fuel (a + 1) >>= λ rest. pure (b ∷ rest)))) [
              | true ↦ λ m m' r h. ground arith
              | false ↦
                  Moves-bind (λ s. s) (λ s. s) (c_string fuel (a + 1)) _
                    (Keeps-c_string fuel (a + 1)) (λ rest m m' r h. ground arith)
            ])

Keeps-stop : (i : ℕ) → Keeps {A = ℕ} (if i == 0 then pure minus_one else pure (to_int i))
Keeps-stop i m m' r h = ground arith

Keeps-read_loop : (p n i c : ℕ) → Keeps (read_loop p n i c)
unfolding read_loop getchar take_input
Keeps-read_loop p zero i c = λ m m' r h. ground arith
Keeps-read_loop p (suc n) i c =
    elim (c == b'\n')
      as (λ z. Keeps {A = ℕ} (
        if z
        then pure (to_int i)
        else (getchar >>= λ r. elim r [
          | none ↦ if i == 0 then pure minus_one else pure (to_int i)
          | some ch ↦ store_byte (p + i) ch >> read_loop p n (i + 1) ch
        ]))) [
          | true ↦ λ m m' r h. ground arith
          | false ↦
              Moves-bind (λ s. s) (λ s. s) getchar _ (λ m m' r h. ground arith)
                (λ o.
                  elim o
                    as (λ z. Keeps {A = ℕ} (elim z [
                      | none ↦ if i == 0 then pure minus_one else pure (to_int i)
                      | some ch ↦ store_byte (p + i) ch >> read_loop p n (i + 1) ch
                    ])) [
                      | none ↦ Keeps-stop i
                      | some ch ↦
                          Moves-bind (λ s. s) (λ s. s) (store_byte (p + i) ch) _
                            (λ m m' r h. ground arith) (λ u. Keeps-read_loop p n (i + 1) ch)
                    ])
        ]

Keeps-write_loop : (p n i : ℕ) → Keeps (write_loop p n i)
unfolding write_loop putchar
Keeps-write_loop p zero i = λ m m' r h. ground arith
Keeps-write_loop p (suc n) i =
    Moves-bind (λ s. s) (λ s. s) (load_byte (p + i)) _ (Keeps-load_byte (p + i))
      (λ b.
        Moves-bind (λ s. s) (λ s. s) (putchar b) _ (λ m m' r h. ground arith)
          (λ ok. elim ok as (λ z. Keeps (if z then write_loop p n (i + 1) else pure (to_int i))) [
            | true ↦ Keeps-write_loop p n (i + 1)
            | false ↦ λ m m' r h. ground arith
          ]))

pub Keeps-read : (p n : ℕ) → Keeps (read p n)
unfolding read
Keeps-read p n = Keeps-read_loop p n 0 0

pub Keeps-write : (p n : ℕ) → Keeps (write p n)
unfolding write
Keeps-write p n = Keeps-write_loop p n 0

-- A function that takes a text.
pub Moves-cputs : (fuel : ℕ) → Moves (λ s. s + 8) (Io.cputs fuel)
unfolding Io.cputs Data.next_op
Moves-cputs fuel =
    Moves-bind (λ s. s) (λ s. s + 8) (cell 0) _ (Keeps-cell 0)
      (λ p.
        Moves-bind (λ s. s) (λ s. s + 8) (c_string fuel p) _ (Keeps-c_string fuel p)
          (λ s m m' r h. ground arith))

pub Moves-write_string : (fuel : ℕ) → Moves (λ s. s + 8) (Io.write_string fuel)
unfolding Io.write_string Data.next_op
Moves-write_string fuel =
    Moves-bind (λ s. s) (λ s. s + 8) (cell 0) _ (Keeps-cell 0)
      (λ p.
        Moves-bind (λ s. s) (λ s. s + 8) (c_string fuel p) _ (Keeps-c_string fuel p)
          (λ s m m' r h. ground arith))

Keeps-answer : (n : ℕ) → Keeps (set_cell 0 n >> next_op)
unfolding next_op
Keeps-answer n m m' r h = ground arith

-- cread and cwrite, which take the number of a file, an address and a length.
pub Moves-transfer :
    (f : ℕ → ℕ → M ℕ)
    → ((p n : ℕ) → Keeps (f p n))
    → Moves
        (λ s. s + 8 + 8)
        (do
          fd ← cell 0
          raise 1
          p ← cell 0
          raise 1
          len ← cell 0
          n ← f p len
          set_cell 0 n
          next_op)
unfolding Data.next_op
Moves-transfer f keeps =
    Moves-bind (λ s. s) (λ s. s + 8 + 8) (cell 0) _ (Keeps-cell 0)
      (λ fd.
        Moves-bind (λ s. s + 8) (λ s. s + 8) (raise 1) _ (λ m m' r h. ground arith)
          (λ u.
            Moves-bind (λ s. s) (λ s. s + 8) (cell 0) _ (Keeps-cell 0)
              (λ p.
                Moves-bind (λ s. s + 8) (λ s. s) (raise 1) _ (λ m m' r h. ground arith)
                  (λ u.
                    Moves-bind (λ s. s) (λ s. s) (cell 0) _ (Keeps-cell 0)
                      (λ len.
                        Moves-bind (λ s. s) (λ s. s) (f p len) _ (keeps p len) Keeps-answer)))))
