-- ===== src/C5/Main.antt =====
-- main of misc/c/c5-main.c.
use north_arm.Prelude.{ℕ, ◌+◌, ◌-◌, ◌*◌}
use north_arm.Machine.{M, pure, ◌>>=◌, ◌>>◌, store, set_sp, set_ip}
use north_arm.C5.Op.{Host}
use north_arm.C5.Run.{next}

abbrev pub stack_size : ℕ
stack_size = 1024 * 8

-- `booter` and `stack` are the addresses of main's arrays, `boot` and `fexit` those of the words.
-- The last cell of the stack points to itself; the one below it is the top, and is not set.
unfoldable pub main : Host → (fuel booter stack boot fexit : ℕ) → M ℕ
unfolding next
main host fuel booter stack boot fexit = do
  store booter boot
  store (booter + 8) fexit
  set_ip booter
  store (stack + 8 * (stack_size - 1)) (stack + 8 * (stack_size - 1))
  set_sp (stack + 8 * (stack_size - 1) - 8)
  w ← next host fuel
  pure 0
