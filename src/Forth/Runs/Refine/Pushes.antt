-- ===== src/Forth/Runs/Refine/Pushes.antt =====
-- Rounds of the loop of `_next` in misc/c/c5.c that leave a list, or push on the return stack.
use mathlib.Core.Path.{subst}
use north_arm.Prelude.{
  ◌≢◌, ℕ, suc, ◌+◌, ◌-◌, ◌≡◌, ◌≤◌, refl, ap, ◌∙◌, true, false, Option, some, List, ◌∷◌, ◌==◌, arith,
}
use north_arm.Machine.{Machine, update, and_then}
use north_arm.C5.Op.{Op, Host}
use north_arm.C5.Control.{return0, fexit, rpop}
use north_arm.C5.Run.{perform, run, loop, enter_loop}
use north_arm.Forth.Vm.{Area, Vm, fetch, Fits}
use north_arm.Forth.View.{View, Ends, at}
use north_arm.Forth.View.Cells.{View-push, View-pop, View-below, fetch-View}
use north_arm.Forth.Runs.{primitive, decode, Goes}
use north_arm.Forth.Runs.Call.{rpush_pop, rpush_return}
use north_arm.Forth.Runs.Round.{below_mapped, loop_primitive}
use north_arm.Forth.Runs.Refine.Steps.{
  Enough, resume, fuel_out, enter_loop_lem, next_op_lem, stopped_case,
}

module _ (host : Host) (area : Area) where
  module _ (real : host.return0_at ≢ 0) where
    pub return_case :
        (w f : ℕ) (xs : List ℕ) (vm : Vm)
        → Goes host area w vm
        → Fits area vm
        → decode host area vm w ≡ some (primitive Op.return0)
        → vm.stack ≡ f ∷ xs
        → Enough host area 4 w vm (record vm { ip = 0; stack = xs })
    unfolding run perform return0
    return_case w f xs vm g fits d shape n enough m c s v =
        let j = n - 3 in
        let after = record vm { ip = 0; stack = xs } in
        let c' = update c (s - 8) w in
        let v1 =
          subst (λ ys. View area c' s ys vm.memory) shape (View-below area c s w vm.stack fits v) in
        fuel_out host area (suc (suc (suc j))) j n w m after _ (omega arith) (
          resume host area (loop_primitive host area j w Op.return0 m c s vm g fits d v) (
            stopped_case host area real host.return0_at after (ground arith) (suc (suc j))
              (omega arith) m c' (s + 8) (View-pop area c' s f xs v1)))

    pub exit_case :
        (w : ℕ) (vm : Vm)
        → Goes host area w vm
        → Fits area vm
        → decode host area vm w ≡ some (primitive Op.fexit)
        → Enough host area 4 w vm (record vm { ip = 0 })
    unfolding run perform fexit
    exit_case w vm g fits d n enough m c s v =
        let j = n - 3 in
        let after = record vm { ip = 0 } in
        fuel_out host area (suc (suc (suc j))) j n w m after _ (omega arith) (
          resume host area (loop_primitive host area j w Op.fexit m c s vm g fits d v) (
            stopped_case host area real 0 after refl (suc (suc j)) (omega arith) m
              (update c (s - 8) w) s (View-below area c s w vm.stack fits v)))

    pub pop_case :
        (w : ℕ) (vm : Vm)
        → Goes host area w vm
        → Fits area vm
        → decode host area vm w ≡ some (primitive Op.rpop)
        → Enough host area 4 w vm vm
    unfolding run perform rpop
    pop_case w vm g fits d n enough m c s v =
        let j = n - 3 in
        fuel_out host area (suc (suc (suc j))) j n w m vm _ (omega arith) (
          resume host area (loop_primitive host area j w Op.rpop m c s vm g fits d v) (
            stopped_case host area real 0 vm refl (suc (suc j)) (omega arith) m (update c (s - 8) w)
              s (View-below area c s w vm.stack fits v)))

    -- What follows a push, run by the `_next` inside `_rpush`.
    pub pushed_runs :
        (w1 k j x : ℕ) (xs : List ℕ) (vm vm' : Vm) (m : Machine) (c : ℕ → Option ℕ) (s : ℕ)
        → fetch area vm vm.ip ≡ some w1
        → Enough host area k w1 (record vm { ip = vm.ip + 8; stack = xs }) vm'
        → k ≤ j
        → View area c s (x ∷ xs) vm.memory
        → Ends area m 0 vm' (enter_loop host (loop host j) (at m c (s + 8) vm))
    pushed_runs w1 k j x xs vm vm' m c s first body enough v =
        let v1 = View-pop area c s x xs v in
        let there = fetch-View area c (s + 8) vm.ip w1 _ v1 first in
        resume host area (enter_loop_lem host area (loop host j) (at m c (s + 8) vm) there)
          (body j enough m c (s + 8) v1)

    pub push_return_case :
        (w w1 k x : ℕ) (xs : List ℕ) (vm vm' : Vm)
        → Goes host area w vm
        → Fits area vm
        → decode host area vm w ≡ some (primitive Op.rpush)
        → vm.stack ≡ x ∷ xs
        → fetch area vm vm.ip ≡ some w1
        → Enough host area k w1 (record vm { ip = vm.ip + 8; stack = xs }) vm'
        → (vm'.ip == 0) ≡ true
        → Enough host area (4 + k) w vm vm'
    unfolding run perform
    push_return_case w w1 k x xs vm vm' g fits d shape first body over n enough m c s v =
        let j = n - 3 in
        let c' = update c (s - 8) w in
        let v1 =
          subst (λ ys. View area c' s ys vm.memory) shape (View-below area c s w vm.stack fits v) in
        let ran = pushed_runs w1 k j x xs vm vm' m c' s first body (omega arith) v1 in
        fuel_out host area (suc (suc (suc j))) j n w m vm' _ (omega arith) (
          resume host area
            (loop_primitive host area j w Op.rpush m c s vm g fits d v
              ∙ ap (λ r. and_then r (loop host (suc (suc j))))
                  (rpush_return (enter_loop host (loop host j)) (at m c' s vm)
                    (at m ran.cells ran.sp vm') x v1.stack.0 ran.ends over))
            (stopped_case host area real 0 vm' refl (suc (suc j)) (omega arith) m ran.cells ran.sp
              ran.view))

    pub push_pop_case :
        (w w1 w2 k k' x : ℕ) (xs : List ℕ) (vm vm' after : Vm)
        → Goes host area w vm
        → Fits area vm
        → decode host area vm w ≡ some (primitive Op.rpush)
        → vm.stack ≡ x ∷ xs
        → fetch area vm vm.ip ≡ some w1
        → Enough host area k w1 (record vm { ip = vm.ip + 8; stack = xs }) vm'
        → (vm'.ip == 0) ≡ false
        → Fits area vm'
        → fetch area vm' vm'.ip ≡ some w2
        → Enough host area k' w2 (record vm' { ip = vm'.ip + 8; stack = x ∷ vm'.stack }) after
        → Enough host area (4 + k + k') w vm after
    unfolding run perform
    push_pop_case w w1 w2 k k' x xs vm vm' after g fits d shape first body live fits' back rest n
          enough m c s v =
        let j = n - 3 in
        let c' = update c (s - 8) w in
        let v1 =
          subst (λ ys. View area c' s ys vm.memory) shape (View-below area c s w vm.stack fits v) in
        let ran = pushed_runs w1 k j x xs vm vm' m c' s first body (omega arith) v1 in
        let (u, free) = below_mapped area ran.cells ran.sp vm'.stack fits' ran.view in
        let v2 = View-push area ran.cells ran.sp x vm'.stack fits' ran.view in
        let c2 = update ran.cells (ran.sp - 8) x in
        let on =
          next_op_lem host area (at m c2 (ran.sp - 8) vm')
            (fetch-View area c2 (ran.sp - 8) vm'.ip w2 _ v2 back) in
        fuel_out host area (suc (suc (suc j))) j n w m after _ (omega arith) (
          resume host area
            (loop_primitive host area j w Op.rpush m c s vm g fits d v
              ∙ ap (λ r. and_then r (loop host (suc (suc j))))
                  (rpush_pop (enter_loop host (loop host j)) (at m c' s vm)
                      (at m ran.cells ran.sp vm') x u v1.stack.0 ran.ends live free
                    ∙ on))
            (rest (suc (suc j)) (omega arith) m c2 (ran.sp - 8) v2))
