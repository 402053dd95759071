-- ===== src/Mm.antt =====
-- kernel/mm/linkedlist.c: the block allocator of the kernel and user heaps.
pub mod Blocks
pub mod Heap
mod Tests
