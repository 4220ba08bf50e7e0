-- ===== src/Machine.antt =====
-- The set-up of the machine: descriptor tables, interrupt controllers and the first page tables.
pub mod Gdt
pub mod Segments
pub mod Idt
pub mod Pic
pub mod Paging
mod Tests
