-- ===== src/Early/Scripts.antt =====
-- The word lists that misc/c/c1.c, c2.c, c3.c and c4-scripts.c run.
pub mod Piece
pub mod FirstScript
pub mod SecondScript
pub mod ThirdTests
pub mod Third
pub mod FourthTests
pub mod Fourth
pub mod First
pub mod Second
pub mod Stays
mod Tests
