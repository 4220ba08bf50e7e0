-- ===== src/Kpm.antt =====
-- kernel/memory/kpm.c and include/kernel/kpm.h: the physical memory allocator.
pub mod Bitmap
pub mod Align
pub mod Buddy
pub mod Update
pub mod Region
pub mod Alloc
pub mod Trace
pub mod Init
mod Tests
