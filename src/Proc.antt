-- ===== src/Proc.antt =====
-- kernel/proc: the processes of the kernel.
pub mod Sched
mod Tests
