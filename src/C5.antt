-- ===== src/C5.antt =====
-- The Forth inner interpreter of misc/c/c5.c and c5.h.
pub mod Op
pub mod Data
pub mod Arith
pub mod Shuffle
pub mod Memory
pub mod Control
pub mod Io
pub mod Run
pub mod Main
