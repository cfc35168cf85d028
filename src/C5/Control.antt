-- ===== src/C5/Control.antt =====
-- The words of misc/c/c5.c that move `*eip` or call `_next`. Those take the functions that they
-- call as arguments: `next` is `_next`, and `call` the jump through a function pointer.
use north_arm.Prelude.{ℕ, ◌+◌, ◌==◌, if◌then◌else◌}
use north_arm.Word64.{add64, mul64}
use north_arm.Machine.{
  M, done, pure, ◌>>=◌, ◌>>◌, load, get_sp, set_sp, get_ip, set_ip, raise, lower, cell, set_cell,
}
use north_arm.C5.Op.{Host, code_of, data_of}
use north_arm.C5.Data.{next_op}

-- `*eip += n` for a signed `n`, in cells.
abbrev pub jump : ℕ → M (Unit {0})
jump n m = done tt (record m { ip = add64 m.ip (mul64 8 n) })

unfoldable pub jumprel : M ℕ
unfolding next_op
jumprel = do n ← cell 0; jump n; raise 1; next_op

unfoldable pub ifjump : M ℕ
unfolding next_op
ifjump = do n ← cell 0; raise 1; c ← cell 0; if c == 0 then pure tt else jump n; raise 1; next_op

unfoldable pub unlessjump : M ℕ
unfolding next_op
unlessjump = do
  n ← cell 0
  raise 1
  c ← cell 0
  if c == 0 then jump n else pure tt
  raise 1
  next_op

unfoldable pub abort_next : M ℕ
abort_next = do set_ip 0; pure 0

unfoldable pub fexit : M ℕ
fexit = do set_ip 0; pure 0

unfoldable pub rpop : M ℕ
rpop = pure 0

module _ (call : ℕ → M ℕ) where
  unfoldable pub doop : M ℕ
  doop = do w ← cell 0; f ← load (data_of w); raise 1; call f

  unfoldable pub exec : M ℕ
  exec = do w ← cell 0; f ← load (code_of w); call f

module _ (next : M ℕ) where
  unfoldable pub rpush : M ℕ
  unfolding next_op
  rpush = do
    v ← cell 0
    raise 1
    w ← next
    ip ← get_ip
    if ip == 0 then pure 0 else (do lower 1; set_cell 0 v; next_op)

module _ (host : Host) where
  unfoldable pub return0 : M ℕ
  return0 = do raise 1; set_ip 0; pure host.return0_at

  -- alloca, and the memory that it maps.
  unfoldable pub allocate : ℕ → M ℕ
  allocate n m = let (p, cells) = host.alloca n m in done p (record m { cells = cells })

  module _ (next : M ℕ) where
    unfoldable pub rallot : M ℕ
    unfolding next_op allocate
    rallot = do
      n ← cell 0
      p ← allocate n
      set_cell 0 p
      w ← next
      ip ← get_ip
      if ip == 0 then pure 0 else next_op

    -- The callee runs on an instruction pointer of its own, `neip`.
    unfoldable pub enter : M ℕ
    unfolding next_op
    enter = do
      neip ← cell 0
      sp ← get_sp
      set_cell 0 (sp + 8)
      ip ← get_ip
      set_ip neip
      r ← next
      set_ip ip
      if r == host.return0_at
          then (do set_sp (sp + 8); next_op)
          else (if r == 0 then next_op else pure r)

    unfoldable pub docol : M ℕ
    unfolding enter
    docol = do w ← cell 0; d ← load (data_of w); set_cell 0 d; enter
