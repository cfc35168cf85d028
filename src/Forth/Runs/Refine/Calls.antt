-- ===== src/Forth/Runs/Refine/Calls.antt =====
-- Rounds of the loop of `_next` in misc/c/c5.c that call a colon word.
use mathlib.Core.Path.{subst}
use north_arm.Prelude.{◌≢◌, ℕ, suc, ◌+◌, ◌-◌, ◌≡◌, ◌≤◌, ap, ◌∙◌, Option, some, ◌∷◌, arith}
use north_arm.Machine.{Machine, update, and_then}
use north_arm.C5.Op.{Op, Host, data_of}
use north_arm.C5.Run.{perform, run, loop, enter_loop}
use north_arm.Forth.Vm.{Area, Vm, fetch, Fits, top_of}
use north_arm.Forth.View.{View, Ends, at}
use north_arm.Forth.View.Cells.{View-push, View-set, fetch-View}
use north_arm.Forth.Runs.{colon, decode, Goes}
use north_arm.Forth.Runs.Call.{docol_lem}
use north_arm.Forth.Runs.Round.{loop_code, Means, decode-Means}
use north_arm.Forth.Runs.Refine.Steps.{Enough, resume, fuel_out, enter_loop_lem, next_op_lem}

module _ (host : Host) (area : Area) where
  module _ (real : host.return0_at ≢ 0) where
    -- The list of a colon word, run by the `_next` inside `_enter`.
    pub callee_runs :
        (w1 k j b : ℕ) (vm vm' : Vm) (m : Machine) (c : ℕ → Option ℕ) (s x : ℕ)
        → Fits area vm
        → fetch area vm b ≡ some w1
        → Enough host area k w1
            (record vm { ip = b + 8; stack = top_of area vm.stack ∷ vm.stack })
            vm'
        → k ≤ j
        → View area c (s - 8) (x ∷ vm.stack) vm.memory
        → let c' = update (update c (s - 8) b) (s - 8) (s - 8 + 8) in
          Ends area m 0 vm' (
            enter_loop host
              (loop host j)
              (record m { cells = c'; sp = s - 8; ip = b; last_word = vm.last_word }))
    callee_runs w1 k j b vm vm' m c s x fits first body enough v =
        let frame : s - 8 + 8 ≡ top_of area vm.stack = omega (arith, v, fits) in
        let v1 = View-set area c (s - 8) (s - 8) 0 b _ (omega arith) (omega arith) v in
        let v2 = View-set area _ (s - 8) (s - 8) 0 (s - 8 + 8) _ (omega arith) (omega arith) v1 in
        let c' = update (update c (s - 8) b) (s - 8) (s - 8 + 8) in
        let there = fetch-View area c' (s - 8) b w1 _ v2 first in
        resume host area
          (enter_loop_lem host area (loop host j)
            (record m { cells = c'; sp = s - 8; ip = b; last_word = vm.last_word }) there)
          (body j enough m c' (s - 8)
            (subst (λ t. View area c' (s - 8) (t ∷ vm.stack) vm.memory) frame v2))

    pub call_case :
        (w w1 w2 k k' b : ℕ) (vm vm' after : Vm)
        → Goes host area w vm
        → Fits area vm
        → decode host area vm w ≡ some (colon b)
        → fetch area vm b ≡ some w1
        → Enough host area k w1
            (record vm { ip = b + 8; stack = top_of area vm.stack ∷ vm.stack })
            vm'
        → fetch area vm' vm.ip ≡ some w2
        → Enough host area k' w2 (record vm' { ip = vm.ip + 8 }) after
        → Enough host area (4 + k + k') w vm after
    unfolding run Means perform
    call_case w w1 w2 k k' b vm vm' after g fits d first body back rest n enough m c s v =
        let j = n - 2 in
        let is = decode-Means host area vm w (colon b) d in
        let v1 = View-push area c s w vm.stack fits v in
        let there = fetch-View area (update c (s - 8) w) (s - 8) (data_of w) b _ v1 is.has_data in
        let ran =
          callee_runs w1 k j b vm vm' m (update c (s - 8) w) s w fits first body (omega arith) v1 in
        let last = at m ran.cells ran.sp (record vm' { ip = vm.ip }) in
        let on =
          next_op_lem host area last (fetch-View area ran.cells ran.sp vm.ip w2 _ ran.view back) in
        fuel_out host area (suc (suc j)) j n w m after _ (omega arith) (
          resume host area
            (loop_code host area (suc j) w is.code_at Op.docol m c s vm g fits is.has_code
                is.is_docol v
              ∙ ap (λ r. and_then r (loop host (suc j)))
                  (docol_lem host (enter_loop host (loop host j)) real
                      (at m (update c (s - 8) w) (s - 8) vm) (at m ran.cells ran.sp vm') w b
                      v1.stack.0 there ran.ends
                    ∙ on))
            (rest (suc j) (omega arith) m ran.cells ran.sp ran.view))
