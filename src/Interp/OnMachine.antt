-- ===== src/Interp/OnMachine.antt =====
-- The lists of misc/c/c4-interp.c, run by `_next` of misc/c/c5.c.
use north_arm.Prelude.{ℕ, ◌≤◌, ◌≢◌, Option}
use north_arm.Machine.{Machine}
use north_arm.C5.Op.{Host}
use north_arm.C5.Run.{next, loop}
use north_arm.Forth.Vm.{Area, Vm}
use north_arm.Forth.View.{View, Ends, at}
use north_arm.Forth.View.Cells.{fetch-View}
use north_arm.Forth.Runs.{cost}
use north_arm.Forth.Runs.Refine.{loop-Runs}
use north_arm.Forth.Runs.Refine.Steps.{resume, enter_loop_lem}
use north_arm.Interp.Laid.{Addresses, Executes}

-- Where the abstract machine executes a list of c4-interp.c from vm to after, and return0 is not
-- at address 0, _next of c5.c with `cost` units of fuel or more returns NULL in a machine that
-- represents after.
pub next-Executes :
    (host : Host) (area : Area) (addresses : Addresses)
    → host.return0_at ≢ 0
    → {vm after : Vm} (e : Executes host area addresses vm after) (n : ℕ)
    → cost host area e.runs ≤ n
    → (m : Machine) (c : ℕ → Option ℕ) (s : ℕ) → View area c s vm.stack vm.memory
    → Ends area m 0 after (next host n (at m c s vm))
unfolding next
next-Executes host area addresses real {vm} {after} e n enough m c s v =
    resume host area
      (enter_loop_lem host area (loop host n) (at m c s vm)
        (fetch-View area c s vm.ip e.next _ v e.fetched))
      (loop-Runs host area real e.runs n enough m c s v)
