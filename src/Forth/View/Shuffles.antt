-- ===== src/Forth/View/Shuffles.antt =====
-- The shuffles of misc/c/c5.c do to the stack what the abstract machine does.
use north_arm.Prelude.{ℕ, ◌+◌, ◌-◌, Option, List, ◌∷◌, arith}
use north_arm.Machine.{update}
use north_arm.C5.Op.{Op}
use north_arm.Forth.Vm.{Area, effect}
use north_arm.Forth.View.{View, Simulates, conclude}
use north_arm.Forth.View.Cells.{View-push, View-pop, View-set, fetch-View}
use north_arm.C5.Shuffle.{swap, fdup, drop, over, roll, shift, rot}

module _ (area : Area) where
  pub swap-Simulates : (xs : List ℕ) → Simulates area (effect area Op.swap) swap xs
  unfolding effect swap
  swap-Simulates (a ∷ b ∷ xs) m c memory s i l w after e code v fits =
      let v1 = View-set area c s s 0 b (a ∷ b ∷ xs) (omega arith) (omega arith) v in
      let v2 =
        View-set area (update c s b) s (s + 8) 1 a (b ∷ b ∷ xs) (omega arith) (omega arith) v1 in
      conclude area m w _ after e code λ k. record {
        cells = _;
        sp = s;
        ends = ground (arith, v, fetch-View area _ s i w _ v2 k);
        view = v2;
      }
  swap-Simulates _ m c memory s i l w after e code v fits = cc

  pub fdup-Simulates : (xs : List ℕ) → Simulates area (effect area Op.fdup) fdup xs
  unfolding effect fdup
  fdup-Simulates (a ∷ xs) m c memory s i l w after e code v fits =
      let v1 = View-push area c s a (a ∷ xs) fits v in
      conclude area m w _ after e code λ k. record {
        cells = _;
        sp = s - 8;
        ends = ground (arith, v, v.room (s - 8), fetch-View area _ (s - 8) i w _ v1 k);
        view = v1;
      }
  fdup-Simulates _ m c memory s i l w after e code v fits = cc

  pub drop-Simulates : (xs : List ℕ) → Simulates area (effect area Op.drop) drop xs
  unfolding effect drop
  drop-Simulates (a ∷ xs) m c memory s i l w after e code v fits =
      let v1 = View-pop area c s a xs v in
      conclude area m w _ after e code λ k. record {
        cells = c;
        sp = s + 8;
        ends = ground (arith, v, fetch-View area c (s + 8) i w xs v1 k);
        view = v1;
      }
  drop-Simulates _ m c memory s i l w after e code v fits = cc

  pub over-Simulates : (xs : List ℕ) → Simulates area (effect area Op.over) over xs
  unfolding effect over
  over-Simulates (a ∷ b ∷ xs) m c memory s i l w after e code v fits =
      let v1 = View-push area c s b (a ∷ b ∷ xs) fits v in
      conclude area m w _ after e code λ k. record {
        cells = _;
        sp = s - 8;
        ends = ground (arith, v, v.room (s - 8), fetch-View area _ (s - 8) i w _ v1 k);
        view = v1;
      }
  over-Simulates _ m c memory s i l w after e code v fits = cc

  -- The three cells on top written.
  set_three :
      {c memory : ℕ → Option ℕ} {xs : List ℕ} (s a b d a' b' d' : ℕ)
      → View area c s (a ∷ b ∷ d ∷ xs) memory
      → View area
          (update (update (update c s a') (s + 8) b') (s + 16) d')
          s
          (a' ∷ b' ∷ d' ∷ xs)
          memory
  set_three {c} {xs} s a b d a' b' d' v =
      View-set area _ s (s + 16) 2 d' (a' ∷ b' ∷ d ∷ xs) (omega arith) (omega arith) (
        View-set area _ s (s + 8) 1 b' (a' ∷ b ∷ d ∷ xs) (omega arith) (omega arith)
          (View-set area c s s 0 a' (a ∷ b ∷ d ∷ xs) (omega arith) (omega arith) v))

  pub roll-Simulates : (xs : List ℕ) → Simulates area (effect area Op.roll) roll xs
  unfolding effect roll
  roll-Simulates (a ∷ b ∷ d ∷ xs) m c memory s i l w after e code v fits =
      let v1 = set_three s a b d b d a v in
      conclude area m w _ after e code λ k. record {
        cells = _;
        sp = s;
        ends = ground (arith, v, fetch-View area _ s i w _ v1 k);
        view = v1;
      }
  roll-Simulates _ m c memory s i l w after e code v fits = cc

  pub shift-Simulates : (xs : List ℕ) → Simulates area (effect area Op.shift) shift xs
  unfolding effect shift
  shift-Simulates (a ∷ b ∷ d ∷ xs) m c memory s i l w after e code v fits =
      let v1 = View-set area c s s 0 d (a ∷ b ∷ d ∷ xs) (omega arith) (omega arith) v in
      let v2 = View-set area _ s (s + 16) 2 b (d ∷ b ∷ d ∷ xs) (omega arith) (omega arith) v1 in
      let v3 = View-set area _ s (s + 8) 1 a (d ∷ b ∷ b ∷ xs) (omega arith) (omega arith) v2 in
      conclude area m w _ after e code λ k. record {
        cells = _;
        sp = s;
        ends = ground (arith, v, fetch-View area _ s i w _ v3 k);
        view = v3;
      }
  shift-Simulates _ m c memory s i l w after e code v fits = cc

  pub rot-Simulates : (xs : List ℕ) → Simulates area (effect area Op.rot) rot xs
  unfolding effect rot
  rot-Simulates (a ∷ b ∷ d ∷ xs) m c memory s i l w after e code v fits =
      let v1 = View-set area c s s 0 d (a ∷ b ∷ d ∷ xs) (omega arith) (omega arith) v in
      let v2 = View-set area _ s (s + 16) 2 a (d ∷ b ∷ d ∷ xs) (omega arith) (omega arith) v1 in
      conclude area m w _ after e code λ k. record {
        cells = _;
        sp = s;
        ends = ground (arith, v, fetch-View area _ s i w _ v2 k);
        view = v2;
      }
  rot-Simulates _ m c memory s i l w after e code v fits = cc
