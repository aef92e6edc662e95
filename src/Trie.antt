-- ===== src/Trie.antt =====
-- The crate dlc-trie: digit decompositions of numeric outcomes, and the tries over them.
pub mod Digits
pub mod Group
pub mod Combinations
mod Tests
