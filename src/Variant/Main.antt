-- ===== src/Variant/Main.antt =====
-- main of misc/c/c4-main.c.
use north_arm.Prelude.{ℕ, ◌+◌, ◌-◌, ◌*◌}
use north_arm.Machine.{M, pure, ◌>>=◌, ◌>>◌, load, set_sp, set_ip}
use north_arm.C5.Op.{Host, data_of}
use north_arm.Variant.Run.{next}

abbrev pub stack_size : ℕ
stack_size = 1024 * 8

-- `stack` is the address of main's array, `boot` that of the word.
unfoldable pub main : Host → (trace_at eip_at fuel stack boot : ℕ) → M ℕ
unfolding next
main host trace_at eip_at fuel stack boot = do
  l ← load (data_of boot)
  set_ip l
  set_sp (stack + 8 * (stack_size - 1))
  r ← next host trace_at eip_at fuel
  pure 0
