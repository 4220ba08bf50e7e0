-- ===== src/Rtc.antt =====
-- drivers/rtc/rtc.c and include/kernel/rtc.h: the real time clock.
pub mod Time
pub mod Reading
pub mod Still
pub mod Calendar
pub mod Registers
mod Tests
