-- ===== src/Forth/View/Effect.antt =====
-- Every word without control flow, in one statement.
use north_arm.Prelude.{List, ℕ, Option, some, ◌≡◌}
use north_arm.Machine.{Machine, M}
use north_arm.C5.Op.{Op, Host}
use north_arm.C5.Run.{perform}
use north_arm.Forth.Vm.{Area, Vm, effect, fetch, advance, Fits}
use north_arm.Forth.View.{View, Ends, at, vm_of}
use north_arm.Forth.View.Shuffles
use north_arm.Forth.View.Arith
use north_arm.Forth.View.Data
use north_arm.Forth.View.Jumps

-- Where `effect` gives a state for a word of c5.c, the next word can be fetched there and the
-- stack has a cell to spare, the C function of the word ends in a machine that represents that
-- state with *eip moved on, and returns the word fetched.
pub effect-Simulates :
    (host : Host) (area : Area) (fuel : ℕ) (call : ℕ → M ℕ) (next : M ℕ) (op : Op) (xs : List ℕ)
    (m : Machine) (c memory : ℕ → Option ℕ) (s i l w : ℕ) (after : Vm)
    → effect area op (vm_of i xs memory l) ≡ some after
    → fetch area after after.ip ≡ some w
    → View area c s xs memory
    → Fits area (vm_of i xs memory l)
    → Ends area m w
        (advance after)
        (perform host fuel call next op (at m c s (vm_of i xs memory l)))
unfolding perform effect
effect-Simulates host area fuel call next Op.swap = Shuffles.swap-Simulates area
effect-Simulates host area fuel call next Op.fdup = Shuffles.fdup-Simulates area
effect-Simulates host area fuel call next Op.drop = Shuffles.drop-Simulates area
effect-Simulates host area fuel call next Op.over = Shuffles.over-Simulates area
effect-Simulates host area fuel call next Op.roll = Shuffles.roll-Simulates area
effect-Simulates host area fuel call next Op.shift = Shuffles.shift-Simulates area
effect-Simulates host area fuel call next Op.rot = Shuffles.rot-Simulates area
effect-Simulates host area fuel call next Op.int_sub = Arith.int_sub-Simulates area
effect-Simulates host area fuel call next Op.uint_sub = Arith.uint_sub-Simulates area
effect-Simulates host area fuel call next Op.ptr_add = Arith.ptr_add-Simulates area
effect-Simulates host area fuel call next Op.ptr_sub = Arith.ptr_sub-Simulates area
effect-Simulates host area fuel call next Op.int_add = Arith.int_add-Simulates area
effect-Simulates host area fuel call next Op.int_mul = Arith.int_mul-Simulates area
effect-Simulates host area fuel call next Op.int_lte = Arith.int_lte-Simulates area
effect-Simulates host area fuel call next Op.int_lt = Arith.int_lt-Simulates area
effect-Simulates host area fuel call next Op.equals = Arith.equals-Simulates area
effect-Simulates host area fuel call next Op.int_div = Arith.int_div-Simulates area
effect-Simulates host area fuel call next Op.int_mod = Arith.int_mod-Simulates area
effect-Simulates host area fuel call next Op.bsl = Arith.bsl-Simulates area
effect-Simulates host area fuel call next Op.bsr = Arith.bsr-Simulates area
effect-Simulates host area fuel call next Op.literal = Data.literal-Simulates area
effect-Simulates host area fuel call next Op.here = Data.here-Simulates area
effect-Simulates host area fuel call next Op.eip = Data.eip-Simulates area
effect-Simulates host area fuel call next Op.free_ram = Data.free_ram-Simulates area
effect-Simulates host area fuel call next Op.set_dict = Data.set_dict-Simulates area
effect-Simulates host area fuel call next Op.dict = Data.dict-Simulates area
effect-Simulates host area fuel call next Op.dovar = Data.dovar-Simulates area
effect-Simulates host area fuel call next Op.doconst = Data.doconst-Simulates area
effect-Simulates host area fuel call next Op.doivar = Data.doivar-Simulates area
effect-Simulates host area fuel call next Op.peek = Data.peek-Simulates area
effect-Simulates host area fuel call next Op.peek_byte = Data.peek_byte-Simulates area
effect-Simulates host area fuel call next Op.jumprel = Jumps.jumprel-Simulates area
effect-Simulates host area fuel call next Op.ifjump = Jumps.ifjump-Simulates area
effect-Simulates host area fuel call next Op.unlessjump = Jumps.unlessjump-Simulates area
effect-Simulates host area fuel call next Op.move = Jumps.move-Simulates area
effect-Simulates host area fuel call next Op.poke = Jumps.poke-Simulates area
effect-Simulates host area fuel call next Op.poke_byte = Jumps.poke_byte-Simulates area
effect-Simulates host area fuel call next _ = λ xs m c memory s i l w after e code v fits. cc
