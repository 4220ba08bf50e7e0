-- ===== src/Nsh.antt =====
-- kernel/nsh/nsh.c and include/kernel/nsh.h: the shell.
pub mod Builtin
pub mod Line
pub mod Shell
pub mod Words
pub mod Split
pub mod Typed
pub mod Complete
pub mod Edit
pub mod Dispatch
mod Tests
