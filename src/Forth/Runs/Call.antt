-- ===== src/Forth/Runs/Call.antt =====
-- What the words of c5.c that call `_next` do, when `_next` returns NULL.
use north_arm.Prelude.{
  Option, ℕ, ◌+◌, ◌-◌, ◌≡◌, ◌≢◌, ap, ◌∙◌, some, ◌==◌, ==-ne, arith, sym, true, false, if◌then◌else◌,
}
use north_arm.Machine.{
  Machine, M, done, pure, set_sp, set_ip, get_ip, lower, set_cell, update, and_then, ◌>>=◌, ◌>>◌,
  load_then, store_then,
}
use north_arm.C5.Op.{Host, data_of}
use north_arm.C5.Data.{next_op}
use north_arm.C5.Control.{docol, enter, rpush}

mapped_update : (c : ℕ → Option ℕ) (a v : ℕ) → update c a v a ≡ some v
mapped_update c a v = ground arith

module _ (host : Host) (next : M ℕ) (real : host.return0_at ≢ 0) where
  -- If the top of the stack points to a list and _next run on it returns NULL in the machine m',
  -- then _enter fetches the next word of its caller in m', on the caller's own *eip, if return0
  -- is not at address 0.
  pub enter_lem :
      (m m' : Machine) (b : ℕ)
      → m.cells m.sp ≡ some b
      → next (record m { cells = update m.cells m.sp (m.sp + 8); ip = b }) ≡ done 0 m'
      → enter host next m ≡ next_op (record m' { ip = m.ip })
  unfolding enter
  enter_lem m m' b e ran =
      load_then m e _
      ∙ store_then m e (m.sp + 8) _
      ∙ ap (λ r. and_then r after) ran
      ∙ ap (λ t. (if t then (set_sp (m.sp + 8) >> next_op) else next_op) (record m' { ip = m.ip }))
          (==-ne λ z. real (sym z))
    where
      after : ℕ → M ℕ
      after r =
          set_ip m.ip
          >> (if r == host.return0_at
              then (set_sp (m.sp + 8) >> next_op)
              else (if r == 0 then next_op else pure r))

  -- If *sp points to a word whose data is the list b, and _next run on that list returns NULL in
  -- the machine m', then _docol fetches the next word of its caller in m', on the caller's own
  -- *eip, if return0 is not at address 0.
  pub docol_lem :
      (m m' : Machine) (w b : ℕ)
      → m.cells m.sp ≡ some w
      → m.cells (data_of w) ≡ some b
      → next (record m { cells = update (update m.cells m.sp b) m.sp (m.sp + 8); ip = b })
        ≡ done 0 m'
      → docol host next m ≡ next_op (record m' { ip = m.ip })
  unfolding docol
  docol_lem m m' w b e1 e2 ran =
      load_then m e1 _
      ∙ load_then m e2 _
      ∙ store_then m e1 b _
      ∙ enter_lem (record m { cells = update m.cells m.sp b }) m' b (mapped_update m.cells m.sp b)
          ran

module _ (next : M ℕ) where
  -- If _next, run without the top of the stack v, returns NULL with *eip not NULL and a cell
  -- free below the stack, _rpush puts v on the stack as it is then and fetches the next word.
  pub rpush_pop :
      (m m' : Machine) (v u : ℕ)
      → m.cells m.sp ≡ some v
      → next (record m { sp = m.sp + 8 }) ≡ done 0 m'
      → (m'.ip == 0) ≡ false
      → m'.cells (m'.sp - 8) ≡ some u
      → rpush next m ≡ next_op (record m' { cells = update m'.cells (m'.sp - 8) v; sp = m'.sp - 8 })
  unfolding rpush
  rpush_pop m m' v u e ran live free =
      load_then m e _
      ∙ ap (λ r. and_then r after) ran
      ∙ ap (λ t. (if t then pure 0 else (lower 1 >> (set_cell 0 v >> next_op))) m') live
      ∙ store_then (record m' { sp = m'.sp - 8 }) free v next_op
    where
      after : ℕ → M ℕ
      after r = get_ip >>= λ ip. if ip == 0 then pure 0 else (lower 1 >> (set_cell 0 v >> next_op))

  -- If _next, run without the top of the stack, returns NULL with *eip NULL, _rpush returns NULL
  -- in the same machine, and the top is gone.
  pub rpush_return :
      (m m' : Machine) (v : ℕ)
      → m.cells m.sp ≡ some v
      → next (record m { sp = m.sp + 8 }) ≡ done 0 m'
      → (m'.ip == 0) ≡ true
      → rpush next m ≡ done 0 m'
  unfolding rpush
  rpush_return m m' v e ran over =
      load_then m e _
      ∙ ap (λ r. and_then r after) ran
      ∙ ap (λ t. (if t then pure 0 else (lower 1 >> (set_cell 0 v >> next_op))) m') over
    where
      after : ℕ → M ℕ
      after r = get_ip >>= λ ip. if ip == 0 then pure 0 else (lower 1 >> (set_cell 0 v >> next_op))
