-- ===== src/Early/Third.antt =====
-- The interpreter of misc/c/c3.c. It is that of c4.c before words were pushed on the stack: a
-- colon word finds itself in front of `*eip`.
use north_arm.Prelude.{
  ℕ, zero, suc, ◌+◌, ◌-◌, ◌%◌, ◌^◌, [], ◌∷◌, ◌++◌, none, some, ltb, ◌==◌, if◌then◌else◌,
}
use north_arm.Prelude.Int.{ℤ, pos, negsuc}
use north_arm.Word64.{add64, sub64, to_ℤ}
use north_arm.Machine.{
  M, bytes, int, hex, pointer, exited, timeout, pure, fail, ◌>>=◌, ◌>>◌, load, get_sp, get_ip,
  set_ip, raise, lower, cell, set_cell, store, put,
}
use north_arm.C5.Op.{Op, Host, code_of, data_of}
use north_arm.C5.Data.{local}
use north_arm.C5.Io.{c_string}
use north_arm.C5.Control.{jump, allocate}
use north_arm.Variant.Signal.{Signal, stop, drop_frame, go, pop}
use north_arm.Variant.Control.{drop_one, keep_stop, put_back}

-- An argument of type int.
abbrev pub int32 : ℕ → ℤ
int32 a = if ltb (a % 2 ^ 32) (2 ^ 31) then pos (a % 2 ^ 32) else negsuc (2 ^ 32 - 1 - a % 2 ^ 32)

unfoldable pub swap : M Signal
swap = do t ← cell 0; b ← cell 1; set_cell 0 b; set_cell 1 t; pure go

unfoldable pub fdup : M Signal
fdup = do v ← cell 0; lower 1; set_cell 0 v; pure go

unfoldable pub drop : M Signal
drop = do raise 1; pure go

unfoldable pub int_sub : M Signal
int_sub = do a ← cell 0; raise 1; b ← cell 0; set_cell 0 (sub64 b a); pure go

unfoldable pub int_add : M Signal
int_add = do a ← cell 0; raise 1; b ← cell 0; set_cell 0 (add64 b a); pure go

unfoldable pub literal : M Signal
literal = do lower 1; ip ← get_ip; v ← load ip; set_cell 0 v; set_ip (ip + 8); pure go

unfoldable pub here : M Signal
here = do sp ← get_sp; store (sp - 8) sp; lower 1; pure go

unfoldable pub peek : M Signal
peek = do p ← cell 0; v ← load p; set_cell 0 v; pure go

unfoldable pub jumprel : M Signal
jumprel = do n ← cell 0; jump n; raise 1; pure go

unfoldable pub ifjump : M Signal
ifjump = do n ← cell 0; raise 1; c ← cell 0; if c == 0 then pure tt else jump n; raise 1; pure go

unfoldable pub rpop : M Signal
rpop = pure pop

unfoldable pub abort_next : M Signal
abort_next = pure stop

unfoldable pub write_int : M Signal
write_int = do n ← cell 0; put (int (to_ℤ n)); raise 1; pure go

unfoldable pub write_hex_int : M Signal
write_hex_int = do n ← cell 0; put (hex n); raise 1; pure go

unfoldable pub cputs : ℕ → M Signal
unfolding c_string
cputs fuel = do p ← cell 0; s ← c_string fuel p; put (bytes (s ++ (b'\n' ∷ []))); raise 1; pure go

unfoldable pub cexit : M Signal
cexit = do n ← cell 0; exited (n % 2 ^ 32)

unfoldable pub enter : M Signal
enter = do w ← cell 0; lower 1; ip ← get_ip; set_cell 0 ip; d ← load (data_of w); set_ip d; pure go

-- "returning to %p", and the address.
unfoldable pub return0 : M Signal
return0 = do l ← cell 0; put (pointer l); set_ip l; raise 1; pure drop_frame

unfoldable pub eip : ℕ → M Signal
eip eip_at = do lower 1; set_cell 0 eip_at; pure go

unfoldable pub dict : ℕ → M Signal
dict dict_at = do lower 1; set_cell 0 dict_at; pure go

unfoldable pub rhere : Host → M Signal
unfolding local
rhere host = do x ← local host; lower 1; set_cell 0 x; pure go

-- `read` is the system's.
unfoldable pub cread : (read : ℕ → ℕ → ℕ → M ℕ) → M Signal
cread read = do
  fd ← cell 0
  raise 1
  p ← cell 0
  raise 1
  len ← cell 0
  put (int (int32 fd))
  put (pointer p)
  put (int (int32 len))
  n ← read (fd % 2 ^ 32) p len
  set_cell 0 n
  pure go

module _ (next : M Signal) where
  unfoldable pub docol : M Signal
  docol = do
    ip ← get_ip
    w ← load (ip - 8)
    lower 1
    set_cell 0 ip
    d ← load (data_of w)
    set_ip d
    r ← next
    pure (drop_one r)

  unfoldable pub fexit : M Signal
  fexit = do l ← cell 0; set_ip l; raise 1; next

  unfoldable pub over : M Signal
  over = do lower 1; v ← cell 2; set_cell 0 v; next

  unfoldable pub rpush : M Signal
  rpush = do v ← cell 0; raise 1; r ← next; put_back v r

  unfoldable pub rallot : Host → M Signal
  unfolding allocate
  rallot host = do n ← cell 0; p ← allocate host n; set_cell 0 p; r ← next; pure (keep_stop r)

-- The program outside this file: what the linker decides, and the system's read.
pub record Site : Type 0 where
  pub host : Host
  pub eip_at : ℕ
  pub dict_at : ℕ
  pub read : ℕ → ℕ → ℕ → M ℕ

module _ (site : Site) where
  -- The C functions; the other names of c5.c have no counterpart.
  unfoldable pub perform : (fuel : ℕ) (next : M Signal) → Op → M Signal
  perform fuel next Op.next = next
  perform fuel next Op.cputs = cputs fuel
  perform fuel next Op.cexit = cexit
  perform fuel next Op.literal = literal
  perform fuel next Op.enter = enter
  perform fuel next Op.return0 = return0
  perform fuel next Op.rallot = rallot next site.host
  perform fuel next Op.here = here
  perform fuel next Op.rhere = rhere site.host
  perform fuel next Op.int_sub = int_sub
  perform fuel next Op.write_int = write_int
  perform fuel next Op.swap = swap
  perform fuel next Op.fdup = fdup
  perform fuel next Op.docol = docol next
  perform fuel next Op.eip = eip site.eip_at
  perform fuel next Op.abort_next = abort_next
  perform fuel next Op.write_hex_int = write_hex_int
  perform fuel next Op.int_add = int_add
  perform fuel next Op.peek = peek
  perform fuel next Op.ifjump = ifjump
  perform fuel next Op.drop = drop
  perform fuel next Op.fexit = fexit next
  perform fuel next Op.over = over next
  perform fuel next Op.rpush = rpush next
  perform fuel next Op.rpop = rpop
  perform fuel next Op.cread = cread site.read
  perform fuel next Op.jumprel = jumprel
  perform fuel next Op.dict = dict site.dict_at
  perform fuel next _ = fail

  -- One round of the loop of `_next` that runs.
  unfoldable pub round : (Op → M Signal) → M Signal
  round run = do
    ip ← get_ip
    w ← load ip
    set_ip (ip + 8)
    f ← load (code_of w)
    elim (site.host.text f) [ none ↦ fail | some op ↦ run op ]

  unfoldable pub again : M Signal → Signal → M Signal
  again body Signal.go = do ip ← get_ip; if ip == 0 then pure go else body
  again body r = pure r

  unfoldable mutual
    pub run : ℕ → Op → M Signal
    run zero op = λ _. timeout
    run (suc n) op = perform n (loop n go) op

    pub loop : ℕ → Signal → M Signal
    loop zero r = λ _. timeout
    loop (suc n) r = again (round (run n) >>= loop n) r

  unfoldable pub next : ℕ → M Signal
  next fuel = loop fuel go
