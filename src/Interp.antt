-- ===== src/Interp.antt =====
-- The words that misc/c/c4-interp.c and misc/c/c4-words-def.c define as lists of other words.
pub mod Item
pub mod Display
pub mod Input
pub mod Tokens
pub mod Dictionary
pub mod Arrays
pub mod Outer
pub mod Body
pub mod Laid
pub mod Listing
pub mod Reads
pub mod Steps
pub mod Agree
pub mod Compare
pub mod Lookup
pub mod Chain
pub mod Effects
pub mod OnMachine
mod Tests
pub mod Flow
pub mod Values
pub mod Entries
pub mod Sequence
pub mod Places
pub mod Turned
pub mod Reverse
