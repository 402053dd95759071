-- ===== src/Ext2/Sparse.antt =====
-- Holes of a file: a pointer that is 0 between the pointers of two blocks with one block between them.
