-- ===== src/Forth/Runs.antt =====
-- How the abstract machine runs a word list: `_next` and the words that call it, in misc/c/c5.c.
pub mod Round
pub mod Call
pub mod Refine
mod Tests
use north_arm.Prelude.{
  ℕ, zero, suc, ◌+◌, ◌≡◌, ◌≢◌, ◌||◌, Bool, true, Option, none, some, List, [], ◌∷◌, ◌==◌,
}
use north_arm.C5.Op
use north_arm.C5.Op.{Op, Host, code_of, data_of}
use north_arm.Forth.Vm.{Area, Vm, ◌>>=◌, fetch, simple, top_of, Fits}

-- What the `code` cell of a word makes of it: a function of C, a list of words, or a function that
-- is given the word itself.
pub data Kind : Type 0 where
  primitive : Op → Kind
  colon : ℕ → Kind
  own : Op → Kind

module _ (host : Host) (area : Area) where
  abbrev pub kind_of : Vm → ℕ → Op → Option Kind
  kind_of vm w Op.doop =
      fetch area vm (data_of w) >>= λ f. host.text f >>= λ op. some (primitive op)
  kind_of vm w Op.docol = fetch area vm (data_of w) >>= λ b. some (colon b)
  kind_of vm w op = some (own op)

  unfoldable pub decode : Vm → ℕ → Option Kind
  decode vm w = fetch area vm (code_of w) >>= λ c. host.text c >>= λ op. kind_of vm w op

  -- The loop of `_next` goes on.
  abbrev pub Goes : ℕ → Vm → Type 0
  Goes w vm = ((w == 0) || (vm.ip == 0)) ≡ Bool.false

  -- `Runs w vm after`: with `w` fetched in the state `vm`, `_next` returns in the state `after`.
  pub data Runs : ℕ → Vm → Vm → Type 0 where
    stopped : {w : ℕ} {vm : Vm} → ((w == 0) || (vm.ip == 0)) ≡ true → Runs w vm vm
    op :
        {w w' : ℕ} {vm vm' after : Vm} (o : Op)
        → Goes w vm
        → Fits area vm
        → decode vm w ≡ some (primitive o)
        → simple area o vm ≡ some (w', vm')
        → Runs w' vm' after
        → Runs w vm after
    self :
        {w w' : ℕ} {vm vm' after : Vm} (o : Op)
        → Goes w vm
        → Fits area (record vm { stack = w ∷ vm.stack })
        → decode vm w ≡ some (own o)
        → simple area o (record vm { stack = w ∷ vm.stack }) ≡ some (w', vm')
        → Runs w' vm' after
        → Runs w vm after
    -- the list at `b` runs on its own `ip`, and the caller goes on from where it was
    call :
        {w w1 w2 : ℕ} {vm vm' after : Vm} (b : ℕ)
        → Goes w vm
        → Fits area vm
        → decode vm w ≡ some (colon b)
        → fetch area vm b ≡ some w1
        → Runs w1 (record vm { ip = b + 8; stack = top_of area vm.stack ∷ vm.stack }) vm'
        → fetch area vm' vm.ip ≡ some w2
        → Runs w2 (record vm' { ip = vm.ip + 8 }) after
        → Runs w vm after
    return :
        {w : ℕ} {vm : Vm} (f : ℕ) (xs : List ℕ)
        → Goes w vm
        → Fits area vm
        → decode vm w ≡ some (primitive Op.return0)
        → vm.stack ≡ f ∷ xs
        → Runs w vm (record vm { ip = 0; stack = xs })
    exit :
        {w : ℕ} {vm : Vm}
        → Goes w vm
        → Fits area vm
        → decode vm w ≡ some (primitive Op.fexit)
        → Runs w vm (record vm { ip = 0 })
    pop :
        {w : ℕ} {vm : Vm}
        → Goes w vm
        → Fits area vm
        → decode vm w ≡ some (primitive Op.rpop)
        → Runs w vm vm
    -- what follows runs up to a pop, and goes on with the cell back on the stack
    push_pop :
        {w w1 w2 : ℕ} {vm vm' after : Vm} (v : ℕ) (xs : List ℕ)
        → Goes w vm
        → Fits area vm
        → decode vm w ≡ some (primitive Op.rpush)
        → vm.stack ≡ v ∷ xs
        → fetch area vm vm.ip ≡ some w1
        → Runs w1 (record vm { ip = vm.ip + 8; stack = xs }) vm'
        → (vm'.ip == 0) ≡ Bool.false
        → Fits area vm'
        → fetch area vm' vm'.ip ≡ some w2
        → Runs w2 (record vm' { ip = vm'.ip + 8; stack = v ∷ vm'.stack }) after
        → Runs w vm after
    -- or it returns from the list, and the cell is gone
    push_return :
        {w w1 : ℕ} {vm vm' : Vm} (v : ℕ) (xs : List ℕ)
        → Goes w vm
        → Fits area vm
        → decode vm w ≡ some (primitive Op.rpush)
        → vm.stack ≡ v ∷ xs
        → fetch area vm vm.ip ≡ some w1
        → Runs w1 (record vm { ip = vm.ip + 8; stack = xs }) vm'
        → (vm'.ip == 0) ≡ true
        → Runs w vm vm'

  -- Rounds and calls that are enough for the C program to return.
  pub cost : {w : ℕ} {vm after : Vm} → Runs w vm after → ℕ
  cost (stopped h) = 1
  cost (op o g f d s r) = 3 + cost r
  cost (self o g f d s r) = 3 + cost r
  cost (call b g f d e r e' r') = 4 + cost r + cost r'
  cost (return f xs g fit d e) = 4
  cost (exit g fit d) = 4
  cost (pop g fit d) = 4
  cost (push_pop v xs g fit d e e1 r z fit' e2 r') = 4 + cost r + cost r'
  cost (push_return v xs g fit d e e1 r z) = 4 + cost r
