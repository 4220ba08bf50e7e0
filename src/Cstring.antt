-- ===== src/Cstring.antt =====
-- The string library: lib/string.
pub mod Memory
pub mod Text
pub mod Stored
pub mod Moves
pub mod Compares
mod Tests
