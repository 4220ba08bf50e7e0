-- ===== src/Screen.antt =====
-- The circular screen buffer of kernel/screenbuf.c.
pub mod Buffer
pub mod Output
pub mod Pointers
pub mod Bounds
pub mod Erase
pub mod Strings
pub mod Loaded
pub mod Line
pub mod Display
pub mod Colors
mod Tests
