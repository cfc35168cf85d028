-- ===== src/Variant/Control.antt =====
-- The words of misc/c/c4.c that move `*eip`, call `_next` or end it. `next` is `_next`, and `call` the
-- jump through a function pointer.
use north_arm.Prelude.{ℕ, ◌==◌, if◌then◌else◌}
use north_arm.Machine.{M, pure, ◌>>=◌, ◌>>◌, load, set_ip, get_ip, raise, lower, cell, set_cell}
use north_arm.C5.Op.{Host, code_of, data_of}
use north_arm.C5.Control.{jump, allocate}
use north_arm.Variant.Signal.{Signal, stop, drop_frame, go, pop}

unfoldable pub jumprel : M Signal
jumprel = do n ← cell 0; jump n; raise 1; pure go

unfoldable pub ifjump : M Signal
ifjump = do n ← cell 0; raise 1; c ← cell 0; if c == 0 then pure tt else jump n; raise 1; pure go

unfoldable pub unlessjump : M Signal
unlessjump = do
  n ← cell 0
  raise 1
  c ← cell 0
  if c == 0 then jump n else pure tt
  raise 1
  pure go

unfoldable pub return0 : M Signal
return0 = do l ← cell 0; set_ip l; raise 1; pure drop_frame

unfoldable pub abort_next : M Signal
abort_next = pure stop

unfoldable pub rpop : M Signal
rpop = pure pop

-- `eip_at` is the address of the variable that holds the instruction pointer.
unfoldable pub eip : ℕ → M Signal
eip eip_at = do lower 1; set_cell 0 eip_at; pure go

module _ (call : ℕ → M Signal) where
  unfoldable pub doop : M Signal
  doop = do w ← cell 0; f ← load (data_of w); raise 1; call f

  unfoldable pub exec : M Signal
  exec = do w ← cell 0; f ← load (code_of w); call f

-- What `_docol` makes of the result of `_next`.
abbrev pub drop_one : Signal → Signal
drop_one drop_frame = go
drop_one r = r

-- What `_rallot` makes of it.
abbrev pub keep_stop : Signal → Signal
keep_stop stop = stop
keep_stop _ = go

-- `case POP` puts the cell back, and falls through to the default.
abbrev pub put_back : ℕ → Signal → M Signal
put_back v pop = do lower 1; set_cell 0 v; pure go
put_back v _ = pure go

module _ (next : M Signal) where
  unfoldable pub docol : M Signal
  docol = do
    w ← cell 0
    ip ← get_ip
    set_cell 0 ip
    l ← load (data_of w)
    set_ip l
    r ← next
    pure (drop_one r)

  unfoldable pub fexit : M Signal
  fexit = do l ← cell 0; set_ip l; raise 1; next

  unfoldable pub over : M Signal
  over = do lower 1; v ← cell 2; set_cell 0 v; next

  unfoldable pub rpush : M Signal
  rpush = do v ← cell 0; raise 1; r ← next; put_back v r

  unfoldable pub rallot : Host → M Signal
  unfolding allocate
  rallot host = do n ← cell 0; p ← allocate host n; set_cell 0 p; r ← next; pure (keep_stop r)
