-- ===== src/Lib.antt =====
-- The Forth interpreters in C of misc/c, and the serial input that the smallest of them reads
-- from.
--
-- The program. misc/c/c5.c is an inner interpreter for Forth. A word is four cells (name, code,
-- data, next); `_next` fetches a word through *eip, pushes it and calls the C function of its
-- code cell. `_doop` calls a primitive, `_docol` runs a list of words through `_enter` on an *eip
-- of its own, and `_rpush` keeps a cell on the C stack while `_next` goes on. misc/c/c4-interp.c
-- and misc/c/c4-words-def.c define the outer interpreter as lists of such words, and
-- misc/c/c5-main.c starts it. On a microcontroller the input comes through misc/c/avr.h, whose
-- receive interrupt fills the ring buffer of misc/c/ringbuffer.c; without unistd,
-- misc/c/unix_io.h stands in for read and write.
--
-- The files.
-- Prelude: names of the libraries that the others share, Boolean tests, lists and integers over
--   the native numbers. Word64: 64-bit arithmetic.
-- Machine: the state that the C functions share, with memory as a map from addresses to cells,
--   and the monad of the functions that act on it.
-- The folder of c5.c: Op has one constructor for each C function of a word; Data, Arith, Shuffle,
--   Memory, Control and Io have the functions, each under the name `_name` has in C; Run has
--   `_next` and the calls through function pointers; Main has main of c5-main.c.
-- Bytes: memory as bytes, and what the two copying loops of Memory do there (Copies).
-- UnixIo: read and write of unix_io.h, and what they do with a line of input (Lines).
-- Forth: an abstract Forth machine, and the relation of c5.c to it. Vm has its state and what
--   each word does; View says how the C machine represents it; Runs is its big-step relation.
-- Interp: the word lists of c4-interp.c and c4-words-def.c (Display, Input, Tokens, Dictionary,
--   Arrays, Outer), the values that constants and variables start with (Values), and control flow
--   inside the lists (Flow). Entries has the dictionary: the names and links of all words of these
--   two files and of c5.c, and the search for a name. Laid and Listing say how a list lies in
--   memory and how the abstract machine steps through it, Reads and Steps have the steps that
--   read; Effects has what short words do, Agree and Compare have byte-string-equals?, Lookup and
--   Chain lookup, Sequence has nseq, Places swap-places, Turned and Reverse reverse, and
--   OnMachine that `_next` of c5.c follows.
-- Variant: misc/c/c4.c, an earlier inner interpreter whose C functions tell the loop of `_next`
--   whether to go on. Stack, Data, Io and Control have the words, Run has `_next`, Main has main
--   of c4-main.c; Same and Shared compare it with c5.c.
-- Early: the interpreters before it, misc/c/c1.c (First), c2.c (Second) and c3.c (Third), and
--   dump_stack and main of these and of c4-scripts.c (Dump). In c1.c and c2.c a C function ends in
--   a tail call of `_next`, here a parameter, and returns a stack pointer. Same compares words of
--   c1.c and c2.c with those of c4.c, Rows has what dump_stack prints, and Scripts the word lists
--   that the mains run and control inside them.
-- Words: the words of c1.c, c2.c, c3.c, c4.c, c4-scripts.c and c4-words.c, one definition for each
--   global variable, and the one that each program starts from (Found).
-- Depth: how many cells the C functions of c5.c take and leave (Arity, Moves, Calls), and the
--   stack effects of the words of c4-interp.c and c4-words-def.c (Types), by the depth of the
--   stack before each item of their lists (Lists, Table, Certified, Sound).
-- RingBuffer: ringbuffer.c, its invariant (Valid, Reach) and its specification (Queue, Refine).
-- Avr: avr.h. The serial port with its interrupt (Uart) and without (Polled), the static input
--   (Static), and the set-up of the device and its restart (Device), over its registers (Bits).
--
-- Choices. The configuration is that of c5.c with NOLOG on x86-64, with cells of eight bytes, and
-- NOUNIX for read and write. A pointer is the address that it holds, as a number; an access to an
-- address that maps no cell is a fault, as are division by zero, the most negative number by -1
-- and shifts of 64 and more. Signed overflow wraps. The addresses of C functions, the memory of
-- alloca and the address of a local variable are a parameter, Host, since the compiler and the
-- linker decide them. For avr.h the numbers of the register bits, the divider of the clock and the
-- time of the watchdog are a parameter, Device; a read past the array of the static input is
-- `none`; that loop_until_bit_is_set waits for the bit and that the watchdog resets the device is
-- what avr-libc documents.
--
-- Fuel. `loop` takes one unit for each round of the loop of `_next` and `run` one for each call
-- through a function pointer; running out is a result of its own, timeout. `cost` gives, for each
-- run of the abstract machine, a number of units that is enough. `spin` of Avr takes, for each
-- round that waits, the list of the characters that arrive in it, none or any number, and is still
-- waiting when there are no more rounds; `dots` takes one unit for each dot that avr_reboot sends.
-- `dump_loop` of Early takes one for each cell that it prints and one to see the end.
--
-- Not modelled: the debug output, STACK_RETADDR in c1.c and c2.c, and the system written in
-- Forth, which is another language.
pub mod Prelude
pub mod Word64
pub mod Machine
pub mod UnixIo
pub mod Bytes
pub mod C5
pub mod RingBuffer
pub mod Avr
pub mod Forth
pub mod Interp
pub mod Variant
pub mod Early
pub mod Depth
pub mod Words
