-- ===== src/Early/Dump.antt =====
-- dump_stack and main of misc/c/c1.c, c2.c, c3.c and c4-scripts.c.
use north_arm.Prelude.{
  ℕ, zero, suc, ◌+◌, ◌-◌, ◌*◌, ◌/◌, ◌%◌, ◌^◌, List, [], ◌∷◌, ltb, leb, if◌then◌else◌,
}
use north_arm.Prelude.Int.{ℤ, pos, negsuc}
use north_arm.Word64.{to_ℤ}
use north_arm.Machine.{
  M, int, hex, pointer, timeout, pure, ◌>>=◌, ◌>>◌, load, get_sp, set_sp, set_ip, lower, set_cell,
  put,
}
use north_arm.C5.Op.{Host, data_of}
use north_arm.Variant.Signal.{Signal}
use north_arm.Variant.Run as Variant
use north_arm.Early.First
use north_arm.Early.Second
use north_arm.Early.Third
use north_arm.Early.Third.{Site, int32}

-- `top - here`, in cells.
abbrev pub distance : ℕ → ℕ → ℤ
distance here top = if leb here top then pos ((top - here) / 8) else negsuc ((here - top) / 8 - 1)

-- The loop of dump_stack, of which each round takes one unit of fuel; `shows` prints a cell.
unfoldable pub dump_loop : (shows : ℕ → M (Unit {0})) → (fuel here top : ℕ) → M (Unit {0})
dump_loop shows zero here top = λ _. timeout
dump_loop shows (suc fuel) here top =
    let rest = dump_loop shows fuel (here + 8) top in
    if ltb here top then (shows here >> rest) else pure tt

unfoldable pub dump_stack : (shows : ℕ → M (Unit {0})) → (fuel here top : ℕ) → M (Unit {0})
unfolding dump_loop
dump_stack shows fuel here top =
    put (pointer here)
    >> (put (pointer top) >> (put (int (distance here top)) >> dump_loop shows fuel here top))

-- "%li\t%p", in c3.c and c4-scripts.c
unfoldable pub shows_long : ℕ → M (Unit {0})
shows_long a = load a >>= λ v. put (int (to_ℤ v)) >> put (pointer v)

-- "%i\t%x" of the low half, in c1.c and c2.c
unfoldable pub shows_int : ℕ → M (Unit {0})
shows_int a = load a >>= λ v. put (int (int32 v)) >> put (hex (v % 2 ^ 32))

-- main of c1.c
unfoldable pub main_first : Host → (words_at fuel stack bootstrap words : ℕ) → M ℕ
unfolding First.next dump_stack shows_int
main_first host words_at fuel stack bootstrap words = do
  let top = stack + 8 * 1023
  set_sp top
  l ← load (data_of bootstrap)
  set_ip l
  here ← First.next host words_at fuel
  dump_stack shows_int fuel here top
  set_sp here
  l ← load (data_of words)
  set_ip l
  here ← First.next host words_at fuel
  dump_stack shows_int fuel here top
  v ← load here
  pure (v % 2 ^ 32)

-- main of c2.c
unfoldable pub main_second : Host → (words_at fuel stack bootstrap words rallot2 : ℕ) → M ℕ
unfolding Second.next dump_stack shows_int
main_second host words_at fuel stack bootstrap words rallot2 = do
  let top = stack + 8 * 1023
  set_sp top
  l ← load (data_of bootstrap)
  set_ip l
  here ← Second.next host words_at fuel
  dump_stack shows_int fuel here top
  set_sp here
  l ← load (data_of words)
  set_ip l
  here ← Second.next host words_at fuel
  dump_stack shows_int fuel here top
  set_sp here
  l ← load (data_of rallot2)
  set_ip l
  here ← Second.next host words_at fuel
  v ← load here
  pure (v % 2 ^ 32)

-- What the mains of c3.c and c4-scripts.c do for each of their words, and the result of the last.
unfoldable pub scripts : M Signal → (fuel top : ℕ) → List ℕ → M ℕ
unfolding dump_stack shows_long
scripts next fuel top [] = do sp ← get_sp; v ← load sp; pure (v % 2 ^ 32)
scripts next fuel top (w ∷ words) = do
  set_cell 0 0
  lower 1
  l ← load (data_of w)
  set_ip l
  r ← next
  sp ← get_sp
  dump_stack shows_long fuel sp top
  scripts next fuel top words

-- `words` are test_nesting0, bootstrap, words, test_rallot, rpushpop and test_read.
unfoldable pub main_third : Site → (fuel stack : ℕ) (words : List ℕ) → M ℕ
unfolding Third.next scripts
main_third site fuel stack words =
    set_sp (stack + 8 * 1023) >> scripts (Third.next site fuel) fuel (stack + 8 * 1023) words

unfoldable pub main_scripts : Host → (trace_at eip_at fuel stack : ℕ) (words : List ℕ) → M ℕ
unfolding Variant.next scripts
main_scripts host trace_at eip_at fuel stack words =
    set_sp (stack + 8 * 1023)
    >> scripts (Variant.next host trace_at eip_at fuel) fuel (stack + 8 * 1023) words
