-- ===== src/Forth/Runs/Refine.antt =====
-- The loop of `_next` in misc/c/c5.c runs as the abstract machine does.
pub mod Steps
pub mod Calls
pub mod Pushes
use mathlib.Core.Path.{subst}
use mathlib.Core.Option.{some-injective}
use north_arm.Prelude.{
  ◌≢◌, ℕ, zero, suc, ◌+◌, ◌-◌, ◌≡◌, ◌≤◌, ◌||◌, refl, sym, ap, ◌∙◌, Bool, true, false, Option, none,
  some, List, [], ◌∷◌, ◌==◌, arith, inl, inr, Option-cases, if◌then◌else◌,
}
use north_arm.Machine.{Machine, M, Result, done, update, and_then, ◌>>=◌, load_then}
use north_arm.C5.Op.{Op, Host, code_of, data_of}
use north_arm.C5.Data.{next_op}
use north_arm.C5.Control.{return0, fexit, rpop}
use north_arm.C5.Run.{perform, run, loop, round, through, enter_loop}
use north_arm.Forth.Vm.{Area, Vm, effect, simple, advance, fetch, Fits, top_of}
use north_arm.Forth.View.{View, Ends, at, Simulates}
use north_arm.Forth.View.Cells.{View-push, View-pop, View-below, View-set, fetch-View}
use north_arm.Forth.View.Effect.{effect-Simulates}
use north_arm.Forth.Runs
use north_arm.Forth.Runs.{Kind, primitive, colon, own, decode, Goes, Runs, cost}
use north_arm.Forth.Runs.Call.{docol_lem, rpush_pop, rpush_return}
use north_arm.Forth.Runs.Round.{
  below_mapped, loop_primitive, loop_code, Means, IsColon, decode-Means,
}
use north_arm.Forth.Runs.Refine.Steps.{
  Enough, resume, simple_then, fuel_out, enter_loop_lem, next_op_lem, stopped_case, op_case,
  self_case,
}
use north_arm.Forth.Runs.Refine.Calls.{call_case}
use north_arm.Forth.Runs.Refine.Pushes.{
  return_case, exit_case, pop_case, push_pop_case, push_return_case,
}

module _ (host : Host) (area : Area) where
  module _ (real : host.return0_at ≢ 0) where
    -- Where the abstract Forth machine runs from the word w in state vm to the state after, and
    -- return0 is not at address 0, the loop of _next of c5.c with at least `cost` units of fuel
    -- returns NULL in a machine that represents after.
    pub loop-Runs :
        {w : ℕ} {vm after : Vm} (d : Runs host area w vm after) (n : ℕ)
        → cost host area d ≤ n
        → (m : Machine) (c : ℕ → Option ℕ) (s : ℕ) → View area c s vm.stack vm.memory
        → Ends area m 0 after (loop host n w (at m c s vm))
    unfolding cost
    loop-Runs (Runs.stopped h) = stopped_case host area real _ _ h
    loop-Runs (Runs.op o g f d s r) = op_case host area real _ _ _ _ _ _ o g f d s (loop-Runs r)
    loop-Runs (Runs.self o g f d s r) = self_case host area real _ _ _ _ _ _ o g f d s (loop-Runs r)
    loop-Runs (Runs.call b g f d e r e' r') =
        call_case host area real _ _ _ _ _ b _ _ _ g f d e (loop-Runs r) e' (loop-Runs r')
    loop-Runs (Runs.return f xs g fit d e) = return_case host area real _ f xs _ g fit d e
    loop-Runs (Runs.exit g fit d) = exit_case host area real _ _ g fit d
    loop-Runs (Runs.pop g fit d) = pop_case host area real _ _ g fit d
    loop-Runs (Runs.push_pop v xs g fit d e e1 r z fit' e2 r') =
        push_pop_case host area real _ _ _ _ _ v xs _ _ _ g fit d e e1 (loop-Runs r) z fit' e2
          (loop-Runs r')
    loop-Runs (Runs.push_return v xs g fit d e e1 r z) =
        push_return_case host area real _ _ _ v xs _ _ g fit d e e1 (loop-Runs r) z
