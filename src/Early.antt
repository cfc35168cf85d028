-- ===== src/Early.antt =====
-- The interpreters that came before c4.c: misc/c/c1.c, c2.c and c3.c.
pub mod Third
pub mod First
pub mod Second
pub mod Dump
pub mod Same
pub mod Rows
mod Tests
pub mod Scripts
