-- ===== src/Depth.antt =====
-- How far the C functions of misc/c/c5.c, and the words that misc/c/c4-interp.c and
-- misc/c/c4-words-def.c put together from them, move the stack.
pub mod Arity
pub mod Moves
pub mod Calls
pub mod Lists
pub mod Types
pub mod Table
pub mod Certified
pub mod Sound
mod Tests
