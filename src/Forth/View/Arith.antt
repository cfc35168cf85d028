-- ===== src/Forth/View/Arith.antt =====
-- The arithmetic of misc/c/c5.c does to the stack what the abstract machine does.
use north_arm.Prelude.{
  ℕ, ◌+◌, ◌*◌, ◌/◌, ◌%◌, ◌^◌, Bool, Option, List, ◌∷◌, arith, ◌==◌, leb, flag, if◌then◌else◌,
  Bool-cases, inl, inr,
}
use north_arm.Word64.{word_mod, add64, sub64, mul64, to_ℤ, of_ℤ, slt, sle}
use north_arm.Machine.{M, fail, ◌>>=◌, ◌>>◌, raise, cell, set_cell, update}
use north_arm.C5.Op.{Op}
use north_arm.C5.Data.{next_op}
use north_arm.Forth.Vm.{Area, effect, on_stack, binary, guarded}
use north_arm.Forth.View.{View, none_ne_some, Simulates, conclude}
use north_arm.Forth.View.Cells.{View-pop, View-set, fetch-View}
use north_arm.C5.Arith
use north_arm.C5.Arith.{traps}
use north_arm.Prelude.Int.{quot, rem}

-- The shape of a word that combines the two cells on top.
abbrev combine : (ℕ → ℕ → M (Unit {0})) → M ℕ
combine f = do a ← cell 0; raise 1; b ← cell 0; f b a; next_op

module _ (area : Area) where
  combine-View :
      {c memory : ℕ → Option ℕ} {xs : List ℕ} (s a b u : ℕ)
      → View area c s (a ∷ b ∷ xs) memory
      → View area (update c (s + 8) u) (s + 8) (u ∷ xs) memory
  combine-View {c} {xs} s a b u v =
      View-set area c (s + 8) (s + 8) 0 u (b ∷ xs) (omega arith) (omega arith)
        (View-pop area c s a (b ∷ xs) v)

  combine-Simulates :
      (f : ℕ → ℕ → ℕ) (xs : List ℕ)
      → Simulates area (on_stack (binary f)) (combine (λ b a. set_cell 0 (f b a))) xs
  unfolding next_op
  combine-Simulates f (a ∷ b ∷ xs) m c memory s i l w after e code v fits =
      let v1 = combine-View s a b (f b a) v in
      conclude area m w _ after e code λ k. record {
        cells = _;
        sp = s + 8;
        ends = ground (arith, v, fetch-View area _ (s + 8) i w _ v1 k);
        view = v1;
      }
  combine-Simulates f _ m c memory s i l w after e code v fits = cc

  combine-Simulates-guarded :
      (bad : ℕ → ℕ → Bool) (f : ℕ → ℕ → ℕ) (xs : List ℕ)
      → Simulates area
          (on_stack (guarded bad f))
          (combine (λ b a. if bad b a then fail else set_cell 0 (f b a)))
          xs
  unfolding next_op
  combine-Simulates-guarded bad f (a ∷ b ∷ xs) m c memory s i l w after e code v fits =
      elim (Bool-cases (bad b a)) [
        | inl fault ↦ absurd (none_ne_some (rw fault at e))
        | inr fine ↦
            let v1 = combine-View s a b (f b a) v in
            conclude area m w _ after (rw fine at e) code λ k. record {
              cells = _;
              sp = s + 8;
              ends = ground (arith, v, fine, fetch-View area _ (s + 8) i w _ v1 k);
              view = v1;
            }
      ]
  combine-Simulates-guarded bad f _ m c memory s i l w after e code v fits = cc

  pub int_sub-Simulates : (xs : List ℕ) → Simulates area (effect area Op.int_sub) Arith.int_sub xs
  unfolding effect Arith.int_sub
  int_sub-Simulates = combine-Simulates sub64

  pub uint_sub-Simulates :
      (xs : List ℕ) → Simulates area (effect area Op.uint_sub) Arith.uint_sub xs
  unfolding effect Arith.uint_sub
  uint_sub-Simulates = combine-Simulates sub64

  pub ptr_add-Simulates : (xs : List ℕ) → Simulates area (effect area Op.ptr_add) Arith.ptr_add xs
  unfolding effect Arith.ptr_add
  ptr_add-Simulates = combine-Simulates add64

  pub ptr_sub-Simulates : (xs : List ℕ) → Simulates area (effect area Op.ptr_sub) Arith.ptr_sub xs
  unfolding effect Arith.ptr_sub
  ptr_sub-Simulates = combine-Simulates sub64

  pub int_add-Simulates : (xs : List ℕ) → Simulates area (effect area Op.int_add) Arith.int_add xs
  unfolding effect Arith.int_add
  int_add-Simulates = combine-Simulates add64

  pub int_mul-Simulates : (xs : List ℕ) → Simulates area (effect area Op.int_mul) Arith.int_mul xs
  unfolding effect Arith.int_mul
  int_mul-Simulates = combine-Simulates mul64

  pub int_lte-Simulates : (xs : List ℕ) → Simulates area (effect area Op.int_lte) Arith.int_lte xs
  unfolding effect Arith.int_lte
  int_lte-Simulates = combine-Simulates (λ b a. flag (sle b a))

  pub int_lt-Simulates : (xs : List ℕ) → Simulates area (effect area Op.int_lt) Arith.int_lt xs
  unfolding effect Arith.int_lt
  int_lt-Simulates = combine-Simulates (λ b a. flag (slt b a))

  pub equals-Simulates : (xs : List ℕ) → Simulates area (effect area Op.equals) Arith.equals xs
  unfolding effect Arith.equals
  equals-Simulates = combine-Simulates (λ b a. flag (b == a))

  pub int_div-Simulates : (xs : List ℕ) → Simulates area (effect area Op.int_div) Arith.int_div xs
  unfolding effect Arith.int_div
  int_div-Simulates = combine-Simulates-guarded traps (λ b a. of_ℤ (quot (to_ℤ b) (to_ℤ a)))

  pub int_mod-Simulates : (xs : List ℕ) → Simulates area (effect area Op.int_mod) Arith.int_mod xs
  unfolding effect Arith.int_mod
  int_mod-Simulates = combine-Simulates-guarded traps (λ b a. of_ℤ (rem (to_ℤ b) (to_ℤ a)))

  pub bsl-Simulates : (xs : List ℕ) → Simulates area (effect area Op.bsl) Arith.bsl xs
  unfolding effect Arith.bsl
  bsl-Simulates = combine-Simulates-guarded (λ b a. leb 64 a) (λ b a. b * 2 ^ a % word_mod)

  pub bsr-Simulates : (xs : List ℕ) → Simulates area (effect area Op.bsr) Arith.bsr xs
  unfolding effect Arith.bsr
  bsr-Simulates = combine-Simulates-guarded (λ b a. leb 64 a) (λ b a. b / 2 ^ a)
