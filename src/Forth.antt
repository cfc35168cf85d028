-- ===== src/Forth.antt =====
-- The Forth machine that misc/c/c5.c promises: a stack of cells and a memory, with no addresses of
-- the C program's own.
pub mod Vm
pub mod View
pub mod Runs
