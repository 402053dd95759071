-- ===== src/Sync/Tests.antt =====
-- A run of kernel/yanix/atomic.c on a held lock.
use yanix.Common.{◌≡◌, some}
use yanix.Sync.{spinlock_loop}
use yanix.Sync.Laws.{spinlock_loop_lem}

spinlock_loop_lem_example : spinlock_loop 5 1 ≡ some 1
spinlock_loop_lem_example = spinlock_loop_lem 3 1
