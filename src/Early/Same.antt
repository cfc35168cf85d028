-- ===== src/Early/Same.antt =====
-- The words of misc/c/c1.c and c2.c that do what those of misc/c/c4.c do.
use north_arm.Prelude.{ℕ, ◌≡◌, Bool, true, false, arith}
use north_arm.Machine.{Machine, M, ◌>>=◌}
use north_arm.C5.Op.{Op, Host}
use north_arm.Variant.Signal.{Signal}
use north_arm.Variant.Run as Variant
use north_arm.Variant.Stack
use north_arm.Variant.Data
use north_arm.Early.First
use north_arm.Early.Second

-- The words that c1.c and c2.c share with c4.c.
abbrev is_direct : Op → Bool
is_direct Op.literal = true
is_direct Op.here = true
is_direct Op.peek = true
is_direct Op.int_sub = true
is_direct Op.int_add = true
is_direct Op.swap = true
is_direct Op.fdup = true
is_direct Op.drop = true
is_direct _ = false

-- For each word in is_direct the C function of c1.c does, on every machine and faults included,
-- what that of c4.c does followed by the fetch of the next word.
pub first_same :
    (host : Host) (words_at trace_at eip_at fuel : ℕ) (next : M ℕ) (call : ℕ → M Signal)
    (next4 : M Signal) (o : Op)
    → is_direct o ≡ true
    → (m : Machine)
    → First.perform host words_at fuel next o m
      ≡ (Variant.perform host trace_at eip_at fuel call next4 o >>= λ r. next) m
unfolding First.perform Variant.perform First.literal Data.literal First.here Data.here First.peek
    Data.peek First.int_sub Stack.int_sub First.int_add Stack.int_add First.swap Stack.swap
    First.dup Stack.fdup First.drop Stack.drop
first_same host words_at trace_at eip_at fuel next call next4 Op.literal h m = ground arith
first_same host words_at trace_at eip_at fuel next call next4 Op.here h m = ground arith
first_same host words_at trace_at eip_at fuel next call next4 Op.peek h m = ground arith
first_same host words_at trace_at eip_at fuel next call next4 Op.int_sub h m = ground arith
first_same host words_at trace_at eip_at fuel next call next4 Op.int_add h m = ground arith
first_same host words_at trace_at eip_at fuel next call next4 Op.swap h m = ground arith
first_same host words_at trace_at eip_at fuel next call next4 Op.fdup h m = ground arith
first_same host words_at trace_at eip_at fuel next call next4 Op.drop h m = ground arith
first_same host words_at trace_at eip_at fuel next call next4 _ h m = cc

-- For each word in is_direct the C function of c2.c does, on every machine and faults included,
-- what that of c4.c does followed by the fetch of the next word.
pub second_same :
    (host : Host) (words_at trace_at eip_at fuel : ℕ) (next : M ℕ) (call : ℕ → M Signal)
    (next4 : M Signal) (o : Op)
    → is_direct o ≡ true
    → (m : Machine)
    → Second.perform host words_at fuel next o m
      ≡ (Variant.perform host trace_at eip_at fuel call next4 o >>= λ r. next) m
unfolding Second.perform Variant.perform Second.literal Data.literal Second.here Data.here
    Second.peek Data.peek Second.int_sub Stack.int_sub Second.int_add Stack.int_add Second.swap
    Stack.swap Second.dup Stack.fdup Second.drop Stack.drop
second_same host words_at trace_at eip_at fuel next call next4 Op.literal h m = ground arith
second_same host words_at trace_at eip_at fuel next call next4 Op.here h m = ground arith
second_same host words_at trace_at eip_at fuel next call next4 Op.peek h m = ground arith
second_same host words_at trace_at eip_at fuel next call next4 Op.int_sub h m = ground arith
second_same host words_at trace_at eip_at fuel next call next4 Op.int_add h m = ground arith
second_same host words_at trace_at eip_at fuel next call next4 Op.swap h m = ground arith
second_same host words_at trace_at eip_at fuel next call next4 Op.fdup h m = ground arith
second_same host words_at trace_at eip_at fuel next call next4 Op.drop h m = ground arith
second_same host words_at trace_at eip_at fuel next call next4 _ h m = cc
