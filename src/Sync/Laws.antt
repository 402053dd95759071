-- ===== src/Sync/Laws.antt =====
-- What `spinlock_lock` does with a free and with a held lock.
use yanix.Common.{ℕ, suc, ◌≡◌, some, arith, if◌then◌else◌, ◌==◌}
use yanix.Sync.{spinlock_loop, spinlock_lock}

-- `spinlock_lock` always returns, after two rounds of its loop at most, and more fuel changes
-- nothing: a free lock is taken, and one that is held is left as it is and not waited for.
pub spinlock_loop_lem :
    (n word : ℕ) → spinlock_loop (suc (suc n)) word ≡ some (if word == 0 then 1 else word)
unfolding spinlock_loop
spinlock_loop_lem n word = ground arith

-- The lock excludes nobody: the call on a held lock returns at once and leaves the word as it was.
pub spinlock_lock-held : (word : ℕ) → spinlock_lock word ≡ some (if word == 0 then 1 else word)
unfolding spinlock_lock
spinlock_lock-held word = ground arith
