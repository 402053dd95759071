-- ===== src/Pipe.antt =====
-- kernel/fs/vfs/pipe.c: pipes over ring buffers. A call faults (`none`) with its ring buffer, and
-- may wait for a writer.
use yanix.Common.{
  ℕ, ◌+◌, ◌^◌, Bool, not, ◌&&◌, Option, none, some, List, ◌==◌, if◌then◌else◌, ◌>>=◌,
}
use yanix.Common.Int.{ℤ}
use yanix.Ring
use yanix.Ring.{RingBuffer, Done, nonblock}

-- EPIPE of errno.h.
abbrev pub epipe : ℕ
epipe = 32

-- How a call on a pipe ends: with a result, or not before another process writes.
pub data Call (A : Type 0) : Type 0 where
  returned : Done A → Call A
  waits : Call A

-- What a call on the null pipe hands back: `errno` is set, and there is no buffer.
pub data Outcome (A : Type 0) : Type 0 where
  broken : (errno : ℕ) → Outcome A
  call : Call A → Outcome A

-- `while (!circbuf->cursize);` as one look at the word.
unfoldable pub ringbuffer_block : RingBuffer → Bool
ringbuffer_block rb = not (rb.cursize == 0)

unfoldable pub pipe_read_raw : Option RingBuffer → (size flags : ℕ) → Option (Outcome (ℤ × List ℕ))
unfolding ringbuffer_block
pipe_read_raw none size flags = some (broken epipe)
pipe_read_raw (some rb) size flags =
    if not (nonblock flags) && not (ringbuffer_block rb)
    then some (call waits)
    else (do done ← Ring.ringbuffer_read size rb; some (call (returned done)))

-- circbuf->flags |= flags & O_NONBLOCK
abbrev pub pass_nonblock : RingBuffer → ℕ → RingBuffer
pass_nonblock rb flags = record rb {
  flags = if nonblock flags && not (nonblock rb.flags) then rb.flags + 2 ^ 14 else rb.flags;
}

unfoldable pub pipe_write_raw : Option RingBuffer → List ℕ → (flags : ℕ) → Option (Outcome ℤ)
pipe_write_raw none bytes flags = some (broken epipe)
pipe_write_raw (some rb) bytes flags = do
  done ← Ring.ringbuffer_write bytes (pass_nonblock rb flags)
  some (call (returned done))

unfoldable pub pipe_remove : Option RingBuffer → (location : ℕ) → Option (Outcome ℤ)
pipe_remove none location = some (broken epipe)
pipe_remove (some rb) location = do
  done ← Ring.ringbuffer_remove location rb
  some (call (returned done))

-- The ring buffer of a new pipe; the kernel heap is taken to have the room.
unfoldable pub pipe_create : (ℕ → List ℕ) → RingBuffer
pipe_create garbage = Ring.create_ringbuffer 0 1 garbage
