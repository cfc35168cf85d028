-- ===== src/Variant/Run.antt =====
-- `_next` and the calls through function pointers of misc/c/c4.c, on fuel: each round of the loop of
-- `_next`, and each call through a pointer, takes one unit.
use north_arm.Prelude.{ℕ, zero, suc, ◌+◌, none, some, [], ◌∷◌, ◌++◌, ◌==◌, if◌then◌else◌}
use north_arm.Machine.{
  M, bytes, fail, timeout, pure, ◌>>=◌, ◌>>◌, load, get_ip, set_ip, lower, set_cell, put,
}
use north_arm.C5.Op.{Op, Host, name_of, code_of}
use north_arm.C5.Io.{c_string}
use north_arm.Variant.Signal.{Signal, go}
use north_arm.Variant.Stack
use north_arm.Variant.Data
use north_arm.Variant.Io
use north_arm.Variant.Control

-- `trace_at` and `eip_at` are the addresses of `_trace_next` and of the instruction pointer.
module _ (host : Host) (trace_at eip_at : ℕ) where
  -- The C function of each name. enter, bsl and bsr of c5.c have no counterpart.
  unfoldable pub perform : (fuel : ℕ) (call : ℕ → M Signal) (next : M Signal) → Op → M Signal
  perform fuel call next Op.doconst = Data.doconst
  perform fuel call next Op.doop = Control.doop call
  perform fuel call next Op.exec = Control.exec call
  perform fuel call next Op.next = next
  perform fuel call next Op.cputs = Io.cputs fuel
  perform fuel call next Op.write_string = Io.write_string fuel
  perform fuel call next Op.flush = Io.flush
  perform fuel call next Op.cexit = Io.cexit
  perform fuel call next Op.literal = Data.literal
  perform fuel call next Op.return0 = Control.return0
  perform fuel call next Op.rallot = Control.rallot next host
  perform fuel call next Op.here = Data.here
  perform fuel call next Op.rhere = Data.rhere host
  perform fuel call next Op.int_sub = Stack.int_sub
  perform fuel call next Op.uint_sub = Stack.uint_sub
  perform fuel call next Op.ptr_add = Stack.ptr_add
  perform fuel call next Op.ptr_sub = Stack.ptr_sub
  perform fuel call next Op.write_int = Io.write_int
  perform fuel call next Op.write_uint = Io.write_uint
  perform fuel call next Op.swap = Stack.swap
  perform fuel call next Op.fdup = Stack.fdup
  perform fuel call next Op.enter = fail
  perform fuel call next Op.docol = Control.docol next
  perform fuel call next Op.eip = Control.eip eip_at
  perform fuel call next Op.abort_next = Control.abort_next
  perform fuel call next Op.write_hex_int = Io.write_hex_int
  perform fuel call next Op.int_add = Stack.int_add
  perform fuel call next Op.int_mul = Stack.int_mul
  perform fuel call next Op.int_div = Stack.int_div
  perform fuel call next Op.int_mod = Stack.int_mod
  perform fuel call next Op.bsl = fail
  perform fuel call next Op.bsr = fail
  perform fuel call next Op.int_lte = Stack.int_lte
  perform fuel call next Op.int_lt = Stack.int_lt
  perform fuel call next Op.equals = Stack.equals
  perform fuel call next Op.peek = Data.peek
  perform fuel call next Op.poke = Data.poke
  perform fuel call next Op.peek_byte = Data.peek_byte
  perform fuel call next Op.poke_byte = Data.poke_byte
  perform fuel call next Op.ifjump = Control.ifjump
  perform fuel call next Op.unlessjump = Control.unlessjump
  perform fuel call next Op.drop = Stack.drop
  perform fuel call next Op.fexit = Control.fexit next
  perform fuel call next Op.over = Control.over next
  perform fuel call next Op.rpush = Control.rpush next
  perform fuel call next Op.rpop = Control.rpop
  perform fuel call next Op.cread = Io.cread
  perform fuel call next Op.cwrite = Io.cwrite
  perform fuel call next Op.jumprel = Control.jumprel
  perform fuel call next Op.roll = Stack.roll
  perform fuel call next Op.shift = Stack.shift
  perform fuel call next Op.rot = Stack.rot
  perform fuel call next Op.dovar = Data.dovar
  perform fuel call next Op.doivar = Data.doivar
  perform fuel call next Op.free_ram = Data.free_ram
  perform fuel call next Op.ram_used = Data.ram_used host
  perform fuel call next Op.move = Data.move
  perform fuel call next Op.set_dict = Data.set_dict
  perform fuel call next Op.dict = Data.dict

  -- The name of the next word, if tracing is on.
  unfoldable pub trace : (fuel : ℕ) → M (Unit {0})
  unfolding c_string
  trace fuel = do
    t ← load trace_at
    if t == 0 then pure tt else (do
      ip ← get_ip
      w ← load ip
      n ← load (name_of w)
      s ← c_string fuel n
      put (bytes (s ++ (b'\n' ∷ []))))

  -- One round of the loop of `_next` that runs.
  unfoldable pub round : (fuel : ℕ) (call : ℕ → M Signal) → M Signal
  unfolding trace
  round fuel call = do
    trace fuel
    lower 1
    ip ← get_ip
    w ← load ip
    set_cell 0 w
    set_ip (ip + 8)
    f ← load (code_of w)
    call f

  unfoldable pub through : (Op → M Signal) → ℕ → M Signal
  through run f = elim (host.text f) [ none ↦ fail | some op ↦ run op ]

  -- The test of the loop: `r == GO && *eip`.
  unfoldable pub again : M Signal → Signal → M Signal
  again body Signal.go = do ip ← get_ip; if ip == 0 then pure go else body
  again body r = pure r

  unfoldable mutual
    pub run : ℕ → Op → M Signal
    run zero op = λ _. timeout
    run (suc n) op = perform n (through (run n)) (loop n go) op

    pub loop : ℕ → Signal → M Signal
    loop zero r = λ _. timeout
    loop (suc n) r = again (round n (through (run n)) >>= loop n) r

  unfoldable pub next : ℕ → M Signal
  next fuel = loop fuel go
