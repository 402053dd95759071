-- ===== src/Libk.antt =====
-- kernel/libk: the routines that the rest of the kernel links instead of a C library.
pub mod Math
pub mod Memory
pub mod Strings
pub mod Numbers
mod Tests
