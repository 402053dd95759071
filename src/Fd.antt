-- ===== src/Fd.antt =====
-- kernel/yanix/ds/fd_vector.c and kernel/fs/filedescriptor.c: the file descriptors of a task.
pub mod Vector
pub mod Table
mod Tests
