-- ===== src/Forth/Vm.antt =====
-- The state of the abstract machine, and what each word without control flow does to it.
use north_arm.Prelude.{
  ℕ, suc, ◌+◌, ◌-◌, ◌*◌, ◌/◌, ◌%◌, ◌^◌, ◌≤◌, Option, none, some, List, [], ◌∷◌, Bool, ◌&&◌, ltb,
  leb, ◌==◌, flag, length, if◌then◌else◌,
}
use north_arm.Prelude.Int.{quot, rem}
use north_arm.Word64.{word_mod, add64, sub64, mul64, to_ℤ, of_ℤ, slt, sle}
use north_arm.Machine.{byte_of, with_byte}
use north_arm.C5.Op.{Op}
use north_arm.C5.Arith.{traps}
use north_arm.C5.Memory.{sign_extend}

-- The stack's cells are those from `base` up to `limit`.
pub record Area : Type 0 where
  pub base : ℕ
  pub limit : ℕ

-- `stack` has its top first and ends at the limit; `memory` is about the cells outside the area.
pub record Vm : Type 0 where
  pub ip : ℕ
  pub stack : List ℕ
  pub memory : ℕ → Option ℕ
  pub last_word : ℕ

-- `ip` moved past the word that it points to.
abbrev pub advance : Vm → Vm
advance vm = record vm { ip = vm.ip + 8 }

infixl 5 ◌>>=◌
abbrev pub ◌>>=◌ {ℓ κ} : {A : Type ℓ} {B : Type κ} → Option A → (A → Option B) → Option B
none >>= f = none
some a >>= f = f a

abbrev pub one : {A : Type 0} → (ℕ → List ℕ → Option A) → List ℕ → Option A
one f [] = none
one f (a ∷ xs) = f a xs

abbrev pub two : {A : Type 0} → (ℕ → ℕ → List ℕ → Option A) → List ℕ → Option A
two f (a ∷ b ∷ xs) = f a b xs
two f xs = none

abbrev pub three : {A : Type 0} → (ℕ → ℕ → ℕ → List ℕ → Option A) → List ℕ → Option A
three f (a ∷ b ∷ c ∷ xs) = f a b c xs
three f xs = none

-- The second cell and the top of the stack, in that order, give the new top.
abbrev pub binary : (ℕ → ℕ → ℕ) → List ℕ → Option (List ℕ)
binary f = two (λ a b xs. some (f b a ∷ xs))

abbrev pub guarded : (ℕ → ℕ → Bool) → (ℕ → ℕ → ℕ) → List ℕ → Option (List ℕ)
guarded bad f = two (λ a b xs. if bad b a then none else some (f b a ∷ xs))

abbrev pub on_stack : (List ℕ → Option (List ℕ)) → Vm → Option Vm
on_stack f vm = f vm.stack >>= λ xs. some (record vm { stack = xs })

-- The words that look at the stack alone.
unfoldable pub shuffle : Op → List ℕ → Option (List ℕ)
unfolding traps quot rem
shuffle Op.swap = two (λ a b xs. some (b ∷ a ∷ xs))
shuffle Op.fdup = one (λ a xs. some (a ∷ a ∷ xs))
shuffle Op.drop = one (λ a xs. some xs)
shuffle Op.over = two (λ a b xs. some (b ∷ a ∷ b ∷ xs))
shuffle Op.roll = three (λ a b c xs. some (b ∷ c ∷ a ∷ xs))
shuffle Op.shift = three (λ a b c xs. some (c ∷ a ∷ b ∷ xs))
shuffle Op.rot = three (λ a b c xs. some (c ∷ b ∷ a ∷ xs))
shuffle Op.int_sub = binary sub64
shuffle Op.uint_sub = binary sub64
shuffle Op.ptr_add = binary add64
shuffle Op.ptr_sub = binary sub64
shuffle Op.int_add = binary add64
shuffle Op.int_mul = binary mul64
shuffle Op.int_div = guarded traps (λ b a. of_ℤ (quot (to_ℤ b) (to_ℤ a)))
shuffle Op.int_mod = guarded traps (λ b a. of_ℤ (rem (to_ℤ b) (to_ℤ a)))
shuffle Op.bsl = guarded (λ b a. leb 64 a) (λ b a. b * 2 ^ a % word_mod)
shuffle Op.bsr = guarded (λ b a. leb 64 a) (λ b a. b / 2 ^ a)
shuffle Op.int_lte = binary (λ b a. flag (sle b a))
shuffle Op.int_lt = binary (λ b a. flag (slt b a))
shuffle Op.equals = binary (λ b a. flag (b == a))
shuffle _ = λ xs. none

module _ (area : Area) where
  -- The address of the top of a stack.
  abbrev pub top_of : List ℕ → ℕ
  top_of xs = area.limit - 8 * length xs

  abbrev pub inside : ℕ → Bool
  inside a = leb area.base a && ltb a area.limit

  -- The cell of the stack at an address, read and written.
  unfoldable pub find : List ℕ → ℕ → Option ℕ
  find [] a = none
  find (x ∷ xs) a = if a == top_of (x ∷ xs) then some x else find xs a

  unfoldable pub replace : List ℕ → ℕ → ℕ → List ℕ
  replace [] a v = []
  replace (x ∷ xs) a v = if a == top_of (x ∷ xs) then v ∷ xs else x ∷ replace xs a v

  -- What is left of the stack when its top is moved to an address.
  unfoldable pub cut : List ℕ → ℕ → Option (List ℕ)
  cut [] a = if a == area.limit then some [] else none
  cut (x ∷ xs) a = if a == top_of (x ∷ xs) then some (x ∷ xs) else cut xs a

  -- A cell of the program, which lies outside the stack.
  abbrev pub fetch : Vm → ℕ → Option ℕ
  fetch vm a = if inside a then none else vm.memory a

  -- Any cell.
  unfoldable pub look : Vm → ℕ → Option ℕ
  unfolding find
  look vm a = if inside a then find vm.stack a else vm.memory a

  unfoldable pub change : Vm → ℕ → ℕ → Vm
  unfolding replace
  change vm a v = record vm {
    stack = if inside a then replace vm.stack a v else vm.stack;
    memory = if inside a then vm.memory else λ b. if a == b then some v else vm.memory b;
  }

  abbrev pub with_stack : Vm → List ℕ → Vm
  with_stack vm xs = record vm { stack = xs }

  -- Words that read memory through the top of the stack.
  abbrev pub reads : (ℕ → ℕ) → (ℕ → ℕ → ℕ) → Vm → Option Vm
  reads place value vm =
      one (λ p xs. look vm (place p) >>= λ v. some (with_stack vm (value p v ∷ xs))) vm.stack

  abbrev pub jump_if : (ℕ → Bool) → Vm → Option Vm
  jump_if test vm =
      two
        (λ n c xs.
          some (record vm { stack = xs; ip = if test c then add64 vm.ip (mul64 8 n) else vm.ip }))
        vm.stack

  -- Writes the second cell through the top, and drops both.
  abbrev pub writes : (ℕ → ℕ) → (ℕ → ℕ → ℕ → ℕ) → Vm → Option Vm
  writes place value vm =
      two
        (λ p v xs. look vm (place p) >>= λ old.
          let after = change vm (place p) (value p v old) in
          two (λ _ _ rest. some (with_stack after rest)) after.stack)
        vm.stack

  -- The words without control flow, before the next word is fetched.
  unfoldable pub effect : Op → Vm → Option Vm
  unfolding shuffle look change cut sign_extend
  effect Op.doconst vm = reads (λ w. w + 16) (λ w v. v) vm
  effect Op.doivar vm = reads (λ w. w + 16) (λ w v. v) vm
  effect Op.dovar vm = one (λ w xs. some (with_stack vm ((w + 16) ∷ xs))) vm.stack
  effect Op.literal vm =
      fetch vm vm.ip >>= λ v. some (record vm { stack = v ∷ vm.stack; ip = vm.ip + 8 })
  effect Op.here vm = some (with_stack vm (top_of vm.stack ∷ vm.stack))
  effect Op.eip vm = some (with_stack vm (vm.ip ∷ vm.stack))
  effect Op.free_ram vm = some (with_stack vm ((word_mod - 1) ∷ vm.stack))
  effect Op.move vm = one (λ p xs. cut vm.stack p >>= λ rest. some (with_stack vm rest)) vm.stack
  effect Op.set_dict vm = one (λ w xs. some (record vm { stack = xs; last_word = w })) vm.stack
  effect Op.dict vm = some (with_stack vm (vm.last_word ∷ vm.stack))
  effect Op.peek vm = reads (λ p. p) (λ p v. v) vm
  effect Op.poke vm = writes (λ p. p) (λ p v old. v) vm
  effect Op.peek_byte vm = reads (λ p. p - p % 8) (λ p v. sign_extend (byte_of v (p % 8))) vm
  effect Op.poke_byte vm = writes (λ p. p - p % 8) (λ p v old. with_byte old (p % 8) v) vm
  effect Op.ifjump vm = jump_if (λ c. if c == 0 then Bool.false else Bool.true) vm
  effect Op.unlessjump vm = jump_if (λ c. c == 0) vm
  effect Op.jumprel vm =
      one (λ n xs. some (record vm { stack = xs; ip = add64 vm.ip (mul64 8 n) })) vm.stack
  effect op vm = on_stack (shuffle op) vm

  -- A word, and the fetch of the one that follows.
  unfoldable pub simple : Op → Vm → Option (ℕ × Vm)
  unfolding effect
  simple op vm = effect op vm >>= λ vm'. fetch vm' vm'.ip >>= λ w. some (w, advance vm')

  -- One more cell fits on the stack.
  abbrev pub Fits : Vm → Type 0
  Fits vm = area.base + 8 * suc (length vm.stack) ≤ area.limit
