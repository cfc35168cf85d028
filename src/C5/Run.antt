-- ===== src/C5/Run.antt =====
-- `_next` and the calls through function pointers of misc/c/c5.c, on fuel: each round of the loop
-- of `_next`, and each call through a pointer, takes one unit.
use north_arm.Prelude.{ℕ, zero, suc, ◌+◌, ◌||◌, none, some, ◌==◌, if◌then◌else◌}
use north_arm.Machine.{M, fail, timeout, pure, ◌>>=◌, ◌>>◌, load, get_ip, set_ip, lower, set_cell}
use north_arm.C5.Op.{Op, Host, code_of}
use north_arm.C5.Data
use north_arm.C5.Arith
use north_arm.C5.Shuffle
use north_arm.C5.Memory
use north_arm.C5.Control
use north_arm.C5.Io

module _ (host : Host) where
  -- The C function of each name; `fuel` bounds the scan of a string.
  unfoldable pub perform : (fuel : ℕ) (call : ℕ → M ℕ) (next : M ℕ) → Op → M ℕ
  perform fuel call next Op.doconst = Data.doconst
  perform fuel call next Op.doop = Control.doop call
  perform fuel call next Op.exec = Control.exec call
  perform fuel call next Op.next = next
  perform fuel call next Op.cputs = Io.cputs fuel
  perform fuel call next Op.write_string = Io.write_string fuel
  perform fuel call next Op.flush = Io.flush
  perform fuel call next Op.cexit = Io.cexit
  perform fuel call next Op.literal = Data.literal
  perform fuel call next Op.return0 = Control.return0 host
  perform fuel call next Op.rallot = Control.rallot host next
  perform fuel call next Op.here = Data.here
  perform fuel call next Op.rhere = Data.rhere host
  perform fuel call next Op.int_sub = Arith.int_sub
  perform fuel call next Op.uint_sub = Arith.uint_sub
  perform fuel call next Op.ptr_add = Arith.ptr_add
  perform fuel call next Op.ptr_sub = Arith.ptr_sub
  perform fuel call next Op.write_int = Io.write_int
  perform fuel call next Op.write_uint = Io.write_uint
  perform fuel call next Op.swap = Shuffle.swap
  perform fuel call next Op.fdup = Shuffle.fdup
  perform fuel call next Op.enter = Control.enter host next
  perform fuel call next Op.docol = Control.docol host next
  perform fuel call next Op.eip = Data.eip
  perform fuel call next Op.abort_next = Control.abort_next
  perform fuel call next Op.write_hex_int = Io.write_hex_int
  perform fuel call next Op.int_add = Arith.int_add
  perform fuel call next Op.int_mul = Arith.int_mul
  perform fuel call next Op.int_div = Arith.int_div
  perform fuel call next Op.int_mod = Arith.int_mod
  perform fuel call next Op.bsl = Arith.bsl
  perform fuel call next Op.bsr = Arith.bsr
  perform fuel call next Op.int_lte = Arith.int_lte
  perform fuel call next Op.int_lt = Arith.int_lt
  perform fuel call next Op.equals = Arith.equals
  perform fuel call next Op.peek = Memory.peek
  perform fuel call next Op.poke = Memory.poke
  perform fuel call next Op.peek_byte = Memory.peek_byte
  perform fuel call next Op.poke_byte = Memory.poke_byte
  perform fuel call next Op.ifjump = Control.ifjump
  perform fuel call next Op.unlessjump = Control.unlessjump
  perform fuel call next Op.drop = Shuffle.drop
  perform fuel call next Op.fexit = Control.fexit
  perform fuel call next Op.over = Shuffle.over
  perform fuel call next Op.rpush = Control.rpush next
  perform fuel call next Op.rpop = Control.rpop
  perform fuel call next Op.cread = Io.cread
  perform fuel call next Op.cwrite = Io.cwrite
  perform fuel call next Op.jumprel = Control.jumprel
  perform fuel call next Op.roll = Shuffle.roll
  perform fuel call next Op.shift = Shuffle.shift
  perform fuel call next Op.rot = Shuffle.rot
  perform fuel call next Op.dovar = Data.dovar
  perform fuel call next Op.doivar = Data.doivar
  perform fuel call next Op.free_ram = Data.free_ram
  perform fuel call next Op.ram_used = Data.ram_used host
  perform fuel call next Op.move = Data.move
  perform fuel call next Op.set_dict = Data.set_dict
  perform fuel call next Op.dict = Data.dict

  -- The head of `_next`, before its loop.
  unfoldable pub enter_loop : (ℕ → M ℕ) → M ℕ
  enter_loop loop = do ip ← get_ip; w ← load ip; set_ip (ip + 8); loop w

  -- A call of the address `f`.
  unfoldable pub through : (Op → M ℕ) → ℕ → M ℕ
  through run f = elim (host.text f) [ none ↦ fail | some op ↦ run op ]

  -- One round of the loop of `_next`.
  unfoldable pub round : (call : ℕ → M ℕ) (again : ℕ → M ℕ) → ℕ → M ℕ
  round call again w = do
    ip ← get_ip
    if (w == 0) || (ip == 0)
        then pure 0
        else (do lower 1; set_cell 0 w; f ← load (code_of w); r ← call f; again r)

  unfoldable mutual
    pub run : ℕ → Op → M ℕ
    run zero op = λ _. timeout
    run (suc n) op = perform n (through (run n)) (enter_loop (loop n)) op

    pub loop : ℕ → ℕ → M ℕ
    loop zero w = λ _. timeout
    loop (suc n) w = round (through (run n)) (loop n) w

  unfoldable pub next : ℕ → M ℕ
  next fuel = enter_loop (loop fuel)
