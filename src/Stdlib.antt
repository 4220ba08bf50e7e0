-- ===== src/Stdlib.antt =====
-- The C library's conversions and searches: lib/std.
pub mod Strtol
pub mod Numeral
pub mod Clamp
pub mod Written
pub mod Helpers
mod Tests
