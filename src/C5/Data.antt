-- ===== src/C5/Data.antt =====
-- next_op, the words that push constants and addresses, and the globals of misc/c/c5.c.
use north_arm.Prelude.{ℕ, ◌+◌, ◌-◌, ◌==◌, if◌then◌else◌}
use north_arm.Word64.{word_mod, sub64}
use north_arm.Machine.{
  M, done, pure, ◌>>=◌, ◌>>◌, load, store, get_sp, set_sp, get_ip, set_ip, raise, lower, cell,
  set_cell,
}
use north_arm.C5.Op.{Host, data_of}

-- The word that `*eip` points to, with `*eip` moved on.
unfoldable pub next_op : M ℕ
next_op = do ip ← get_ip; cur ← load ip; set_ip (ip + 8); pure cur

unfoldable pub doconst : M ℕ
unfolding next_op
doconst = do w ← cell 0; d ← load (data_of w); set_cell 0 d; next_op

unfoldable pub dovar : M ℕ
unfolding next_op
dovar = do w ← cell 0; set_cell 0 (data_of w); next_op

unfoldable pub doivar : M ℕ
unfolding next_op
doivar = do w ← cell 0; d ← load (data_of w); set_cell 0 d; next_op

unfoldable pub literal : M ℕ
unfolding next_op
literal = do lower 1; ip ← get_ip; v ← load ip; set_cell 0 v; set_ip (ip + 8); next_op

unfoldable pub here : M ℕ
unfolding next_op
here = do sp ← get_sp; store (sp - 8) sp; lower 1; next_op

unfoldable pub eip : M ℕ
unfolding next_op
eip = do lower 1; ip ← get_ip; set_cell 0 ip; next_op

unfoldable pub move : M ℕ
unfolding next_op
move = do p ← cell 0; set_sp p; next_op

unfoldable pub free_ram : M ℕ
unfolding next_op
free_ram = do lower 1; set_cell 0 (word_mod - 1); next_op

unfoldable pub get_last_word : M ℕ
get_last_word m = done m.last_word m

unfoldable pub set_last_word : ℕ → M (Unit {0})
set_last_word w m = done tt (record m { last_word = w })

unfoldable pub set_dict : M ℕ
unfolding next_op set_last_word
set_dict = do w ← cell 0; set_last_word w; raise 1; next_op

unfoldable pub dict : M ℕ
unfolding next_op get_last_word
dict = do lower 1; set_cell 0 0; w ← get_last_word; set_cell 0 w; next_op

-- The address of a local variable: `&n` in `_rhere`, `&x` in `_ram_used`.
module _ (host : Host) where
  unfoldable pub local : M ℕ
  local m = done (host.local_at m) m

  unfoldable pub rhere : M ℕ
  unfolding next_op local
  rhere = do x ← local; lower 1; set_cell 0 x; next_op

  -- The first call records where the C stack began.
  unfoldable pub start : M ℕ
  start m =
      if m.init_brk == 0
      then done (host.local_at m) (record m { init_brk = host.local_at m })
      else done m.init_brk m

  unfoldable pub ram_used : M ℕ
  unfolding next_op local start
  ram_used = do x ← local; brk ← start; lower 1; set_cell 0 (sub64 brk x); next_op
