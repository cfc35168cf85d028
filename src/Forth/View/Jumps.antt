-- ===== src/Forth/View/Jumps.antt =====
-- The words that write memory, move the stack pointer or jump do to the abstract machine what
-- `effect` says.
use north_arm.Prelude.{
  ℕ, ◌+◌, ◌-◌, ◌%◌, ◌≡◌, Option, some, List, ◌∷◌, arith, ◌==◌, Option-cases, Bool-cases, inl, inr,
}
use north_arm.Word64.{add64, mul64}
use north_arm.Machine.{update, with_byte}
use north_arm.C5.Op.{Op}
use north_arm.C5.Data.{move}
use north_arm.C5.Memory.{poke, poke_byte}
use north_arm.C5.Control.{jumprel, ifjump, unlessjump}
use north_arm.Forth.Vm.{Area, Vm, two, effect, cut, look}
use north_arm.Forth.View.{View, none_ne_some, Simulates, conclude, vm_of}
use north_arm.Forth.View.Cells.{View-pop, fetch-View, look-View, change-View, cut-View}

module _ (area : Area) where
  pub jumprel-Simulates : (xs : List ℕ) → Simulates area (effect area Op.jumprel) jumprel xs
  unfolding effect jumprel
  jumprel-Simulates (n ∷ xs) m c memory s i l w after e code v fits =
      let v1 = View-pop area c s n xs v in
      conclude area m w _ after e code λ k. record {
        cells = c;
        sp = s + 8;
        ends = ground (arith, v, fetch-View area c (s + 8) (add64 i (mul64 8 n)) w xs v1 k);
        view = v1;
      }
  jumprel-Simulates _ m c memory s i l w after e code v fits = cc

  pub ifjump-Simulates : (xs : List ℕ) → Simulates area (effect area Op.ifjump) ifjump xs
  unfolding effect ifjump
  ifjump-Simulates (n ∷ b ∷ xs) m c memory s i l w after e code v fits =
      let v1 = View-pop area c (s + 8) b xs (View-pop area c s n (b ∷ xs) v) in
      conclude area m w _ after e code λ k. record {
        cells = c;
        sp = s + 8 + 8;
        ends = elim (Bool-cases (b == 0)) [
          | inl z ↦ ground (arith, v, z, fetch-View area c (s + 8 + 8) i w xs v1)
          | inr z ↦
              ground (arith, v, z, fetch-View area c (s + 8 + 8) (add64 i (mul64 8 n)) w xs v1)
        ];
        view = v1;
      }
  ifjump-Simulates _ m c memory s i l w after e code v fits = cc

  pub unlessjump-Simulates :
      (xs : List ℕ) → Simulates area (effect area Op.unlessjump) unlessjump xs
  unfolding effect unlessjump
  unlessjump-Simulates (n ∷ b ∷ xs) m c memory s i l w after e code v fits =
      let v1 = View-pop area c (s + 8) b xs (View-pop area c s n (b ∷ xs) v) in
      conclude area m w _ after e code λ k. record {
        cells = c;
        sp = s + 8 + 8;
        ends = elim (Bool-cases (b == 0)) [
          | inl z ↦
              ground (arith, v, z, fetch-View area c (s + 8 + 8) (add64 i (mul64 8 n)) w xs v1)
          | inr z ↦ ground (arith, v, z, fetch-View area c (s + 8 + 8) i w xs v1)
        ];
        view = v1;
      }
  unlessjump-Simulates _ m c memory s i l w after e code v fits = cc

  pub move-Simulates : (xs : List ℕ) → Simulates area (effect area Op.move) move xs
  unfolding effect move
  move-Simulates (a ∷ xs) m c memory s i l w after e code v fits =
      elim (Option-cases (cut area (a ∷ xs) a)) [
        | inl missing ↦ absurd (none_ne_some (rw missing at e))
        | inr (rest, found) ↦
            let v1 = cut-View area c s a (a ∷ xs) rest v found in
            conclude area m w _ after (rw found at e) code λ k. record {
              cells = c;
              sp = a;
              ends = ground (arith, v, fetch-View area c a i w rest v1 k);
              view = v1;
            }
      ]
  move-Simulates _ m c memory s i l w after e code v fits = cc

  -- What is left of the stack `ys` when two cells are dropped.
  drop_two :
      (c memory : ℕ → Option ℕ) (s i l : ℕ) (after : Vm) (ys : List ℕ)
      → View area c s ys memory
      → two (λ _ _ rest. some (vm_of i rest memory l)) ys ≡ some after
      → (rest : List ℕ) × (some (vm_of i rest memory l) ≡ some after)
        × View area c (s + 8 + 8) rest memory
  drop_two c memory s i l after (a ∷ b ∷ ys) v e =
      (ys, e, View-pop area c (s + 8) b ys (View-pop area c s a (b ∷ ys) v))
  drop_two c memory s i l after _ v e = absurd (none_ne_some e)

  pub poke-Simulates : (xs : List ℕ) → Simulates area (effect area Op.poke) poke xs
  unfolding effect poke
  poke-Simulates (p ∷ u ∷ xs) m c memory s i l w after e code v fits =
      let vm = vm_of i (p ∷ u ∷ xs) memory l in
      elim (Option-cases (look area vm p)) [
        | inl missing ↦ absurd (none_ne_some (rw missing at e))
        | inr (old, found) ↦
            let there = look-View area c s p old i l _ v found in
            let v1 = change-View area c s p u old i l _ v found in
            let (rest, e', v2) = drop_two _ _ s i l after _ v1 (rw found at e) in
            conclude area m w _ after e' code λ k. record {
              cells = update c p u;
              sp = s + 8 + 8;
              ends =
                  ground
                    (arith, v, there, fetch-View area (update c p u) (s + 8 + 8) i w rest v2 k);
              view = v2;
            }
      ]
  poke-Simulates _ m c memory s i l w after e code v fits = cc

  pub poke_byte-Simulates : (xs : List ℕ) → Simulates area (effect area Op.poke_byte) poke_byte xs
  unfolding effect poke_byte
  poke_byte-Simulates (p ∷ u ∷ xs) m c memory s i l w after e code v fits =
      let vm = vm_of i (p ∷ u ∷ xs) memory l in
      let q = p - p % 8 in
      elim (Option-cases (look area vm q)) [
        | inl missing ↦ absurd (none_ne_some (rw missing at e))
        | inr (old, found) ↦
            let new = with_byte old (p % 8) u in
            let there = look-View area c s q old i l _ v found in
            let v1 = change-View area c s q new old i l _ v found in
            let (rest, e', v2) = drop_two _ _ s i l after _ v1 (rw found at e) in
            conclude area m w _ after e' code λ k. record {
              cells = update c q new;
              sp = s + 8 + 8;
              ends =
                  ground
                    (arith, v, there, fetch-View area (update c q new) (s + 8 + 8) i w rest v2 k);
              view = v2;
            }
      ]
  poke_byte-Simulates _ m c memory s i l w after e code v fits = cc
