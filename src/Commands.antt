-- ===== src/Commands.antt =====
-- kernel/nsh/builtins/: the commands of the shell.
pub mod Args
pub mod Memory
pub mod Allotted
pub mod Screens
pub mod Entry
pub mod Fit
pub mod Session
pub mod Settings
pub mod Dump
pub mod Dumped
mod Tests
