-- ===== src/Keyboard.antt =====
-- The keyboard driver: kernel/keyboard/ and include/kernel/keyboard.h.
pub mod Keycode
pub mod Scancodes
pub mod State
pub mod Fr
pub mod Us104
pub mod Driver
pub mod Held
pub mod Strokes
pub mod Letters
mod Tests
