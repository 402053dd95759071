-- ===== src/Sync.antt =====
-- kernel/yanix/atomic.c over kernel/arch/i386/cpu/atomic.asm: the lock word of a spinlock.
pub mod Laws
mod Tests
use yanix.Common.{ℕ, zero, suc, Option, none, some, ◌==◌, if◌then◌else◌}

-- `arch_atomic_compare_exchange`: `cmpxchg` stores the new value where the word holds the expected
-- one, and leaves in eax, the result, the value that the word held. The second part is the word.
unfoldable pub compare_exchange : (word bitunset bitset : ℕ) → ℕ × ℕ
compare_exchange word bitunset bitset = if word == bitunset then (word, bitset) else (word, word)

-- `arch_atomic_test_and_set`, which expects 0.
unfoldable pub test_and_set : (word bit : ℕ) → ℕ × ℕ
test_and_set word bit = if word == 0 then (0, bit) else (word, word)

-- `while (!atomic_compare_exchange(&sl->locked, 0, 1));` on fuel, with no other thread at the word;
-- `none` is a wait that goes on.
pub spinlock_loop : (fuel word : ℕ) → Option ℕ
unfolding compare_exchange
spinlock_loop zero word = none
spinlock_loop (suc fuel) word =
    let (eax, word') = compare_exchange word 0 1 in
    let again = spinlock_loop fuel word' in if eax == 0 then again else some word'

-- Two rounds are enough, by `Laws`.
unfoldable pub spinlock_lock : ℕ → Option ℕ
unfolding spinlock_loop
spinlock_lock word = spinlock_loop 2 word

-- `arch_atomic_store(&sl->locked, 0)`: the processor does not take a `lock` prefix on a `mov`, and
-- raises an invalid opcode.
unfoldable pub spinlock_unlock : ℕ → Option ℕ
spinlock_unlock word = none
