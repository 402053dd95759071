-- ===== src/Queue.antt =====
-- kernel/yanix/ds/queue.c: the bounded queue of pending connections.
-- A call faults (`none`) where it leaves the block of the buffer, and where it waits for ever.
pub mod Fifo
mod Tests
use yanix.Common.{
  ℕ, zero, suc, ◌+◌, ◌-◌, ◌%◌, ◌^◌, Option, none, some, List, ◌==◌, ltb, if◌then◌else◌, length,
  get_elem?, set, ◌>>=◌,
}
use yanix.Common.Int.{ℤ, pos, negsuc}
use yanix.Sync.{test_and_set}

-- `struct queue`; the list is the block of `capacity` words.
pub record Queue : Type 0 where
  pub buffer : List ℕ
  pub size : ℕ
  pub capacity : ℕ
  pub lock : ℕ

-- QUEUE_DEFAULT_SIZE
abbrev pub default_size : ℕ
default_size = 128

-- `while (q->lock && atomic_test_and_set(&q->lock, 1));` on fuel, with no other thread at the word:
-- the word that it leaves, or `none` where it is still waiting.
pub queue_lock : (fuel word : ℕ) → Option ℕ
queue_lock zero word = none
queue_lock (suc fuel) word =
    let (eax, word') = test_and_set word 1 in
    let again = queue_lock fuel word' in
    if word == 0 then some word else if eax == 0 then some word' else again

-- The word is 0 before every call, as `Fifo` shows, so that one round is enough.
abbrev pub lock_fuel : ℕ
lock_fuel = 1

-- `garbage n` is what the block of `n` words held. The size is an `int` that is not below -1.
unfoldable pub queue_create : ℤ → (ℕ → List ℕ) → Queue
queue_create (negsuc _) garbage = record {
  buffer = garbage default_size;
  size = 0;
  capacity = default_size;
  lock = 0;
}
queue_create (pos size) garbage = record {
  buffer = garbage size;
  size = 0;
  capacity = size;
  lock = 0;
}

-- `memcpy(buffer, &buffer[1], ...)` of `n` words, which copies upwards, from word `i` on.
pub move_down : List ℕ → (i n : ℕ) → Option (List ℕ)
move_down buffer i zero = some buffer
move_down buffer i (suc n) = do b ← get_elem? buffer (i + 1); move_down (set buffer i b) (i + 1) n

-- The null pointer where the queue is empty; that path leaves the lock as it is.
unfoldable pub queue_pop : Queue → Option (ℕ × Queue)
unfolding queue_lock move_down
queue_pop q = do
  word ← queue_lock lock_fuel q.lock
  if q.size == 0 then some (0, record q { lock = word }) else (do
    element ← get_elem? q.buffer 0
    buffer ← move_down q.buffer 0 (q.size - 1)
    some (element, record q { buffer = buffer; size = q.size - 1; lock = 0 }))

-- The index, or -1 where the queue is full; that path leaves the lock as it is.
unfoldable pub queue_push : ℕ → Queue → Option (ℤ × Queue)
unfolding queue_lock
queue_push element q = do
  word ← queue_lock lock_fuel q.lock
  if q.capacity == q.size
      then some (negsuc 0, record q { lock = word })
      else if ltb q.size (length q.buffer)
      then some (
        pos q.size,
        record q { buffer = set q.buffer q.size element; size = q.size + 1; lock = 0 },
      )
      else none
