-- ===== src/Forth/View/Data.antt =====
-- The words of c5.c that move data do to the abstract machine what `effect` says.
use north_arm.Prelude.{ℕ, ◌+◌, ◌-◌, ◌*◌, ◌%◌, ◌≡◌, List, ◌∷◌, length, arith, Option-cases, inl, inr}
use north_arm.Word64.{word_mod}
use north_arm.Machine.{byte_of, ◌>>=◌, ◌>>◌, load, cell, set_cell}
use north_arm.C5.Op.{Op}
use north_arm.C5.Data.{
  next_op, literal, here, eip, free_ram, set_dict, dict, dovar, doconst, doivar,
}
use north_arm.C5.Memory.{peek, peek_byte, sign_extend}
use north_arm.Forth.Vm.{Area, reads, effect, fetch, look}
use north_arm.Forth.View.{none_ne_some, Simulates, conclude, vm_of}
use north_arm.Forth.View.Cells.{View-push, View-pop, View-set, fetch-View, look-View}

module _ (area : Area) where
  pub literal-Simulates : (xs : List ℕ) → Simulates area (effect area Op.literal) literal xs
  unfolding effect literal
  literal-Simulates xs m c memory s i l w after e code v fits =
      elim (Option-cases (fetch area (vm_of i xs memory l) i)) [
        | inl missing ↦ absurd (none_ne_some (rw missing at e))
        | inr (u, found) ↦
            let v1 = View-push area c s u xs fits v in
            conclude area m w _ after (rw found at e) code λ k. record {
              cells = _;
              sp = s - 8;
              ends = ground (
                arith,
                v,
                v.room (s - 8),
                fetch-View area c s i u _ v found,
                fetch-View area _ (s - 8) (i + 8) w _ v1 k,
              );
              view = v1;
            }
      ]

  pub here-Simulates : (xs : List ℕ) → Simulates area (effect area Op.here) here xs
  unfolding effect here
  here-Simulates xs m c memory s i l w after e code v fits =
      let here_is : area.limit - 8 * length xs ≡ s = omega (arith, v) in
      let v1 = View-push area c s s xs fits v in
      conclude area m w _ after (rw here_is at e) code λ k. record {
        cells = _;
        sp = s - 8;
        ends = ground (arith, v, v.room (s - 8), fetch-View area _ (s - 8) i w _ v1 k);
        view = v1;
      }

  pub eip-Simulates : (xs : List ℕ) → Simulates area (effect area Op.eip) eip xs
  unfolding effect eip
  eip-Simulates xs m c memory s i l w after e code v fits =
      let v1 = View-push area c s i xs fits v in
      conclude area m w _ after e code λ k. record {
        cells = _;
        sp = s - 8;
        ends = ground (arith, v, v.room (s - 8), fetch-View area _ (s - 8) i w _ v1 k);
        view = v1;
      }

  pub free_ram-Simulates : (xs : List ℕ) → Simulates area (effect area Op.free_ram) free_ram xs
  unfolding effect free_ram
  free_ram-Simulates xs m c memory s i l w after e code v fits =
      let v1 = View-push area c s (word_mod - 1) xs fits v in
      conclude area m w _ after e code λ k. record {
        cells = _;
        sp = s - 8;
        ends = ground (arith, v, v.room (s - 8), fetch-View area _ (s - 8) i w _ v1 k);
        view = v1;
      }

  pub set_dict-Simulates : (xs : List ℕ) → Simulates area (effect area Op.set_dict) set_dict xs
  unfolding effect set_dict
  set_dict-Simulates (a ∷ xs) m c memory s i l w after e code v fits =
      let v1 = View-pop area c s a xs v in
      conclude area m w _ after e code λ k. record {
        cells = c;
        sp = s + 8;
        ends = ground (arith, v, fetch-View area c (s + 8) i w xs v1 k);
        view = v1;
      }
  set_dict-Simulates _ m c memory s i l w after e code v fits = cc

  -- `here->ui = 0` is written over by the next line.
  pub dict-Simulates : (xs : List ℕ) → Simulates area (effect area Op.dict) dict xs
  unfolding effect dict
  dict-Simulates xs m c memory s i l w after e code v fits =
      let v0 = View-push area c s 0 xs fits v in
      let v1 = View-set area _ (s - 8) (s - 8) 0 l (0 ∷ xs) (omega arith) (omega arith) v0 in
      conclude area m w _ after e code λ k. record {
        cells = _;
        sp = s - 8;
        ends = ground (arith, v, v.room (s - 8), fetch-View area _ (s - 8) i w _ v1 k);
        view = v1;
      }

  pub dovar-Simulates : (xs : List ℕ) → Simulates area (effect area Op.dovar) dovar xs
  unfolding effect dovar
  dovar-Simulates (a ∷ xs) m c memory s i l w after e code v fits =
      let v1 = View-set area c s s 0 (a + 16) (a ∷ xs) (omega arith) (omega arith) v in
      conclude area m w _ after e code λ k. record {
        cells = _;
        sp = s;
        ends = ground (arith, v, fetch-View area _ s i w _ v1 k);
        view = v1;
      }
  dovar-Simulates _ m c memory s i l w after e code v fits = cc

  reads-Simulates :
      (place : ℕ → ℕ) (value : ℕ → ℕ → ℕ) (xs : List ℕ)
      → Simulates area
          (reads area place value)
          (do p ← cell 0; v ← load (place p); set_cell 0 (value p v); next_op)
          xs
  unfolding next_op
  reads-Simulates place value (a ∷ xs) m c memory s i l w after e code v fits =
      elim (Option-cases (look area (vm_of i (a ∷ xs) memory l) (place a))) [
        | inl missing ↦ absurd (none_ne_some (rw missing at e))
        | inr (u, found) ↦
            let v1 = View-set area c s s 0 (value a u) (a ∷ xs) (omega arith) (omega arith) v in
            conclude area m w _ after (rw found at e) code λ k. record {
              cells = _;
              sp = s;
              ends =
                  ground (
                    arith,
                    v,
                    look-View area c s _ u i l _ v found,
                    fetch-View area _ s i w _ v1 k,
                  );
              view = v1;
            }
      ]
  reads-Simulates place value _ m c memory s i l w after e code v fits = cc

  pub doconst-Simulates : (xs : List ℕ) → Simulates area (effect area Op.doconst) doconst xs
  unfolding effect doconst
  doconst-Simulates = reads-Simulates (λ w. w + 16) (λ w v. v)

  pub doivar-Simulates : (xs : List ℕ) → Simulates area (effect area Op.doivar) doivar xs
  unfolding effect doivar
  doivar-Simulates = reads-Simulates (λ w. w + 16) (λ w v. v)

  pub peek-Simulates : (xs : List ℕ) → Simulates area (effect area Op.peek) peek xs
  unfolding effect peek
  peek-Simulates = reads-Simulates (λ p. p) (λ p v. v)

  pub peek_byte-Simulates : (xs : List ℕ) → Simulates area (effect area Op.peek_byte) peek_byte xs
  unfolding effect peek_byte
  peek_byte-Simulates (a ∷ xs) m c memory s i l w after e code v fits =
      elim (Option-cases (look area (vm_of i (a ∷ xs) memory l) (a - a % 8))) [
        | inl missing ↦ absurd (none_ne_some (rw missing at e))
        | inr (u, found) ↦
            let v1 =
              View-set area c s s 0 (sign_extend (byte_of u (a % 8))) (a ∷ xs) (omega arith)
                (omega arith) v in
            conclude area m w _ after (rw found at e) code λ k. record {
              cells = _;
              sp = s;
              ends = ground (
                arith,
                v,
                look-View area c s (a - a % 8) u i l _ v found,
                fetch-View area _ s i w _ v1 k,
              );
              view = v1;
            }
      ]
  peek_byte-Simulates _ m c memory s i l w after e code v fits = cc
