-- ===== src/Early/First.antt =====
-- The interpreter of misc/c/c1.c, in which every C function ends in a tail call of `_next`, without
-- STACK_RETADDR. A C function returns a stack pointer.
use north_arm.Prelude.{
  ℕ, zero, suc, ◌+◌, ◌-◌, ◌%◌, ◌^◌, [], ◌∷◌, ◌++◌, none, some, ltb, ◌==◌, if◌then◌else◌,
}
use north_arm.Word64.{word_mod, add64, sub64}
use north_arm.Machine.{
  M, bytes, int, hex, pointer, exited, timeout, pure, fail, ◌>>=◌, ◌>>◌, load, get_sp, set_sp,
  get_ip, set_ip, raise, lower, cell, set_cell, store, put,
}
use north_arm.C5.Op.{Op, Host, code_of, data_of}
use north_arm.C5.Data.{local}
use north_arm.C5.Io.{c_string}
use north_arm.C5.Control.{jump, allocate}
use north_arm.Early.Third.{int32}

-- The low 32 bits, as a signed offset.
abbrev pub sext32 : ℕ → ℕ
sext32 a = if ltb (a % 2 ^ 32) (2 ^ 31) then a % 2 ^ 32 else a % 2 ^ 32 + (word_mod - 2 ^ 32)

-- `next` is the tail call of `_next`; the parameters `sp` and `eip` are the machine's.
module _ (next : M ℕ) where
  unfoldable pub swap : M ℕ
  swap = do t ← cell 0; b ← cell 1; set_cell 0 b; set_cell 1 t; next

  unfoldable pub dup : M ℕ
  dup = do v ← cell 0; lower 1; set_cell 0 v; next

  unfoldable pub drop : M ℕ
  drop = do raise 1; next

  unfoldable pub int_sub : M ℕ
  int_sub = do a ← cell 0; raise 1; b ← cell 0; set_cell 0 (sub64 b a); next

  unfoldable pub int_add : M ℕ
  int_add = do a ← cell 0; raise 1; b ← cell 0; set_cell 0 (add64 b a); next

  unfoldable pub literal : M ℕ
  literal = do lower 1; ip ← get_ip; v ← load ip; set_cell 0 v; set_ip (ip + 8); next

  unfoldable pub here : M ℕ
  here = do sp ← get_sp; store (sp - 8) sp; lower 1; next

  unfoldable pub peek : M ℕ
  peek = do p ← cell 0; v ← load p; set_cell 0 v; next

  unfoldable pub write_int : M ℕ
  write_int = do a ← cell 0; raise 1; put (int (int32 a)); next

  unfoldable pub write_hex_int : M ℕ
  write_hex_int = do a ← cell 0; raise 1; put (hex a); next

  unfoldable pub cputs : ℕ → M ℕ
  unfolding c_string
  cputs fuel = do p ← cell 0; s ← c_string fuel p; put (bytes (s ++ (b'\n' ∷ []))); raise 1; next

  unfoldable pub eip : M ℕ
  eip = do ip ← get_ip; lower 1; set_cell 0 ip; next

  unfoldable pub dict : ℕ → M ℕ
  dict words_at = do lower 1; set_cell 0 words_at; next

  unfoldable pub rhere : Host → M ℕ
  unfolding local
  rhere host = do x ← local host; lower 1; set_cell 0 x; next

  unfoldable pub rallot : Host → M ℕ
  unfolding allocate
  rallot host = do n ← cell 0; p ← allocate host n; set_cell 0 p; next

  -- The list runs in a call that returns its `sp`; then the caller goes on.
  unfoldable pub enter : M ℕ
  enter = do l ← cell 0; ip ← get_ip; raise 1; set_ip l; sp ← next; set_sp sp; set_ip (ip + 8); next

  unfoldable pub docol : M ℕ
  docol = do
    ip ← get_ip
    w ← load (ip - 8)
    d ← load (data_of w)
    set_ip d
    sp ← next
    set_sp sp
    set_ip ip
    next

  unfoldable pub ifjump : M ℕ
  ifjump = do
    n ← cell 0
    raise 1
    c ← cell 0
    if c == 0 then pure tt else jump (sext32 n)
    raise 1
    next

  unfoldable pub fexit : M ℕ
  fexit = do l ← cell 0; set_ip l; next

-- "returning to %p", and the cell.
unfoldable pub return0 : M ℕ
return0 = do l ← cell 0; put (pointer l); get_sp

unfoldable pub cexit : M ℕ
cexit = do n ← cell 0; exited (n % 2 ^ 32)

module _ (host : Host) (words_at : ℕ) where
  -- The C functions; the other names of c5.c have no counterpart.
  unfoldable pub perform : (fuel : ℕ) (next : M ℕ) → Op → M ℕ
  perform fuel next Op.next = next
  perform fuel next Op.cputs = cputs next fuel
  perform fuel next Op.cexit = cexit
  perform fuel next Op.literal = literal next
  perform fuel next Op.enter = enter next
  perform fuel next Op.return0 = return0
  perform fuel next Op.rallot = rallot next host
  perform fuel next Op.here = here next
  perform fuel next Op.rhere = rhere next host
  perform fuel next Op.int_sub = int_sub next
  perform fuel next Op.write_int = write_int next
  perform fuel next Op.swap = swap next
  perform fuel next Op.fdup = dup next
  perform fuel next Op.docol = docol next
  perform fuel next Op.eip = eip next
  perform fuel next Op.int_add = int_add next
  perform fuel next Op.peek = peek next
  perform fuel next Op.ifjump = ifjump next
  perform fuel next Op.write_hex_int = write_hex_int next
  perform fuel next Op.drop = drop next
  perform fuel next Op.fexit = fexit next
  perform fuel next Op.dict = dict next words_at
  perform fuel next _ = fail

  unfoldable pub next_word : (Op → M ℕ) → M ℕ
  next_word run = do
    ip ← get_ip
    w ← load ip
    f ← load (code_of w)
    set_ip (ip + 8)
    elim (host.text f) [ none ↦ fail | some op ↦ run op ]

  -- Each tail call of `_next` takes one unit of fuel.
  unfoldable pub run : ℕ → Op → M ℕ
  run zero op = λ _. timeout
  run (suc n) op = perform n (next_word (run n)) op

  unfoldable pub next : ℕ → M ℕ
  next fuel = next_word (run fuel)
