-- ===== src/Variant.antt =====
-- The inner interpreter of misc/c/c4.c and c4.h, in which the C function of a word does not fetch
-- the next word, as in c5.c, but tells the loop of `_next` whether to go on.
pub mod Signal
pub mod Stack
pub mod Data
pub mod Io
pub mod Control
pub mod Run
pub mod Same
pub mod Shared
pub mod Main
mod Tests
