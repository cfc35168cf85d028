-- ===== src/Depth/Tests.antt =====
-- A run of the word named . with a call of nl, and a sum.
use north_arm.Prelude.{ℕ, ◌+◌, ◌≡◌, refl, suc, none, some, [], ◌==◌, true, if◌then◌else◌}
use north_arm.Machine.{Machine, Result, done, fail}
use north_arm.C5.Op.{Op, Host}
use north_arm.C5.Arith
use north_arm.C5.Data.{next_op}
use north_arm.C5.Run.{perform}
use north_arm.Depth.Calls.{perform-takes}
use north_arm.Interp.Display
use north_arm.Interp.Item.{Colon}
use north_arm.Interp.Body.{body}
use north_arm.Interp.Flow.{items_from, plain, pushed, goes}
use north_arm.Depth.Lists.{At, begins, goes_on, comes_back}
use north_arm.Depth.Sound.{Ready, return-type, At-Ready}

-- At the return0 of nl, which found four cells under its frame.
abbrev nl_returns : At Colon.nl 4 3 5
unfolding body items_from plain pushed goes Display.nl
nl_returns =
    goes_on {p = 2} {a = 1} {b = 0} (goes_on {p = 0} {a = 0} {b = 1} begins refl refl) refl refl

-- At the call of nl.
abbrev dot_calls : At Colon.dot 3 2 4
unfolding body items_from plain pushed goes Display.dot
dot_calls =
    goes_on {p = 1} {a = 1} {b = 0} (goes_on {p = 0} {a = 2} {b = 3} begins refl refl) refl refl

abbrev dot_returns : At Colon.dot 3 3 4
unfolding body items_from Display.nl Display.dot
dot_returns = comes_back {p' = 3} dot_calls refl nl_returns refl

return-type_example : 4 ≡ suc (1 + 2)
unfolding body items_from Display.dot
return-type_example = return-type Colon.dot 1 1 2 3 4 refl dot_returns refl

At-Ready_example : Ready Colon.dot 2 4 2
At-Ready_example = At-Ready Colon.dot 1 1 2 2 4 refl dot_calls

abbrev host : Host
host = record { text = λ a. none; return0_at = 8; alloca = λ n m. (0, m.cells); local_at = λ m. 0 }

-- 3 on top of 4, and the next word in the cell at 200.
abbrev machine : Machine
machine = record {
  cells = λ a.
      if a == 80 then some 3 else if a == 88 then some 4 else if a == 200 then some 1000 else none;
  sp = 80;
  ip = 200;
  last_word = 0;
  init_brk = 0;
  input = [];
  output = [];
  stdout_ok = true;
}

abbrev added : Result ℕ
unfolding perform Arith.int_add next_op
added = perform host 0 (λ f. fail) fail Op.int_add machine

abbrev state_of : Result ℕ → Machine
state_of (done r m) = m
state_of _ = machine

perform-takes_example : (state_of added).sp ≡ 88
unfolding perform Arith.int_add next_op
perform-takes_example =
    perform-takes host 0 (λ f. fail) fail Op.int_add refl machine (state_of added) 1000 refl
