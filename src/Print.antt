-- ===== src/Print.antt =====
-- Formatted printing: kernel/print.c.
pub mod Number
pub mod Format
pub mod Bounds
pub mod Output
pub mod Kprintf
pub mod Digits
pub mod ReadBack
mod Tests
