-- ===== src/Variant/Data.antt =====
-- The words of misc/c/c4.c for constants, addresses and memory.
use north_arm.Prelude.{◌+◌, ◌-◌}
use north_arm.Word64.{word_mod, sub64}
use north_arm.Machine.{
  M, pure, ◌>>=◌, ◌>>◌, load, store, load_byte, store_byte, get_sp, set_sp, get_ip, set_ip, raise,
  lower, cell, set_cell,
}
use north_arm.C5.Op.{Host, data_of}
use north_arm.C5.Data.{set_last_word, get_last_word, local, start}
use north_arm.C5.Memory.{sign_extend}
use north_arm.Variant.Signal.{Signal, go}

unfoldable pub doconst : M Signal
doconst = do w ← cell 0; d ← load (data_of w); set_cell 0 d; pure go

unfoldable pub dovar : M Signal
dovar = do w ← cell 0; set_cell 0 (data_of w); pure go

unfoldable pub doivar : M Signal
doivar = do w ← cell 0; d ← load (data_of w); set_cell 0 d; pure go

unfoldable pub literal : M Signal
literal = do lower 1; ip ← get_ip; v ← load ip; set_cell 0 v; set_ip (ip + 8); pure go

unfoldable pub here : M Signal
here = do sp ← get_sp; store (sp - 8) sp; lower 1; pure go

unfoldable pub move : M Signal
move = do p ← cell 0; set_sp p; pure go

unfoldable pub free_ram : M Signal
free_ram = do lower 1; set_cell 0 (word_mod - 1); pure go

unfoldable pub set_dict : M Signal
unfolding set_last_word
set_dict = do w ← cell 0; set_last_word w; raise 1; pure go

unfoldable pub peek : M Signal
peek = do p ← cell 0; v ← load p; set_cell 0 v; pure go

unfoldable pub poke : M Signal
poke = do p ← cell 0; v ← cell 1; store p v; raise 2; pure go

unfoldable pub peek_byte : M Signal
unfolding sign_extend
peek_byte = do p ← cell 0; b ← load_byte p; set_cell 0 (sign_extend b); pure go

unfoldable pub poke_byte : M Signal
poke_byte = do p ← cell 0; v ← cell 1; store_byte p v; raise 2; pure go

unfoldable pub dict : M Signal
unfolding get_last_word
dict = do lower 1; w ← get_last_word; set_cell 0 w; pure go

module _ (host : Host) where
  unfoldable pub rhere : M Signal
  unfolding local
  rhere = do x ← local host; lower 1; set_cell 0 x; pure go

  unfoldable pub ram_used : M Signal
  unfolding local start
  ram_used = do x ← local host; brk ← start host; lower 1; set_cell 0 (sub64 brk x); pure go
