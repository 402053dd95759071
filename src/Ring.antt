-- ===== src/Ring.antt =====
-- kernel/yanix/ds/ringbuffer.c and kernel/yanix/atomic.c: the byte buffer behind pipes and terminals.
-- A call faults (`none`) where it reads or writes outside the block that `buffer_start` points to.
pub mod Contents
pub mod Write
pub mod Read
pub mod Transfer
pub mod Edit
mod Tests
use yanix.Common.{
  ℕ, zero, suc, ◌+◌, ◌-◌, ◌/◌, ◌%◌, ◌^◌, Bool, true, false, not, ◌&&◌, ◌||◌, Option, none, some,
  List, [], ◌∷◌, ◌==◌, ltb, if◌then◌else◌, length, get_elem?, set, replicate, ◌>>=◌,
}
use yanix.Common.Int.{ℤ, pos, negsuc}
use yanix.Sync.{spinlock_lock, spinlock_unlock}

-- `struct ringbuffer`: the counters are `unsigned long` and `unsigned int`, 32 bits wide. The list
-- is the block from `buffer_start` to `buffer_end`.
pub record RingBuffer : Type 0 where
  pub size : ℕ
  pub virtual_end : ℕ
  pub virtual_begin : ℕ
  pub buffer : List ℕ
  pub cursize : ℕ
  pub spinlock : ℕ
  pub flags : ℕ

-- `unsigned` arithmetic of 32 and of 16 bits.
abbrev pub u32 : ℕ → ℕ
u32 n = n % 2 ^ 32

abbrev pub u16 : ℕ → ℕ
u16 n = n % 2 ^ 16

abbrev pub sub32 : ℕ → ℕ → ℕ
sub32 a b = (a + 2 ^ 32 - b) % 2 ^ 32

-- USHRT_MAX, RINGBUFFER_OPTIMIZE_USHORTINT and O_NONBLOCK; ENOSYS; '\n'.
abbrev pub ushrt_max : ℕ
ushrt_max = 0xffff

abbrev pub optimize_ushortint : ℕ → Bool
optimize_ushortint flags = (flags % 2) == 1

abbrev pub nonblock : ℕ → Bool
nonblock flags = (flags / 2 ^ 14 % 2) == 1

abbrev pub enosys : ℕ
enosys = 38

abbrev pub newline : ℕ
newline = 10

-- What a call that ends without a fault hands back: the result, `errno` where the call sets it, and
-- the buffer.
pub record Done (A : Type 0) : Type 0 where
  pub result : A
  pub errno : Option ℕ
  pub ring : RingBuffer

-- The two structures come zeroed and fresh from the kernel heap; `garbage` is what the block held.
unfoldable pub create_ringbuffer : (size flags : ℕ) → (ℕ → List ℕ) → RingBuffer
create_ringbuffer size flags garbage =
    let size' = if optimize_ushortint flags then ushrt_max else size in
    record {
      size = size';
      virtual_end = 0;
      virtual_begin = 0;
      buffer = garbage size';
      cursize = 0;
      spinlock = 0;
      flags = flags;
    }

-- The loop of the read: `ind` counts in 16 bits.
pub read_loop : List ℕ → (ind n : ℕ) → Option (List ℕ)
read_loop buffer ind zero = some []
read_loop buffer ind (suc n) = do
  b ← get_elem? buffer ind
  rest ← read_loop buffer (u16 (ind + 1)) n
  some (b ∷ rest)

-- `max`: the size asked for, at most `cursize` where that is not 0, and at most what is held.
unfoldable pub read_max : ℕ → RingBuffer → ℕ
read_max size rb =
    let size' = if not (rb.cursize == 0) && ltb rb.cursize size then rb.cursize else size in
    let stored = sub32 rb.virtual_end rb.virtual_begin in if ltb stored size' then stored else size'

-- The result is the list of the bytes that the C writes to `buffer`, and their number; -1 with
-- ENOSYS for the modes that are not implemented.
unfoldable pub ringbuffer_read_index : (size index : ℕ) → RingBuffer → Option (Done (ℤ × List ℕ))
unfolding read_loop
ringbuffer_read_index size index rb =
    let max = read_max size rb in
    if optimize_ushortint rb.flags
    then (do
      bytes ← read_loop rb.buffer (u16 index) max
      some (record {
        result = (pos max, bytes);
        errno = none;
        ring = record rb {
          virtual_begin = u32 (index + max);
          cursize = if rb.cursize == 0 then 0 else sub32 rb.cursize max;
        };
      }))
    else some (record { result = (negsuc 0, []); errno = some enosys; ring = rb })

-- Round `i` of the write: `cursize` moves up at a newline, and at every byte in the mode that does
-- not block; the byte goes to index `ind`.
abbrev pub put_byte : RingBuffer → (ind i b : ℕ) → RingBuffer
put_byte rb ind i b = record rb {
  buffer = set rb.buffer ind b;
  cursize =
      if nonblock rb.flags || b == newline
      then u32 (sub32 rb.virtual_end rb.virtual_begin + i + 1)
      else rb.cursize;
}

pub write_loop : RingBuffer → (ind i : ℕ) → List ℕ → Option RingBuffer
write_loop rb ind i [] = some rb
write_loop rb ind i (b ∷ bytes) =
    if ltb ind (length rb.buffer)
    then write_loop (put_byte rb ind i b) (u16 (ind + 1)) (i + 1) bytes
    else none

unfoldable pub ringbuffer_write_index : List ℕ → (index : ℕ) → RingBuffer → Option (Done ℤ)
unfolding write_loop
ringbuffer_write_index bytes index rb =
    if optimize_ushortint rb.flags
    then (do
      rb' ← write_loop rb (u16 index) 0 bytes
      some (record {
        result = pos (length bytes);
        errno = none;
        ring = record rb' { virtual_end = u32 (index + length bytes) };
      }))
    else some (record { result = negsuc 0; errno = some enosys; ring = rb })

unfoldable pub ringbuffer_read : (size : ℕ) → RingBuffer → Option (Done (ℤ × List ℕ))
ringbuffer_read size rb = do
  held ← spinlock_lock rb.spinlock
  done ← ringbuffer_read_index size rb.virtual_begin (record rb { spinlock = held })
  free ← spinlock_unlock done.ring.spinlock
  some (record done { ring = record done.ring { spinlock = free } })

unfoldable pub ringbuffer_write : List ℕ → RingBuffer → Option (Done ℤ)
ringbuffer_write bytes rb = do
  held ← spinlock_lock rb.spinlock
  done ← ringbuffer_write_index bytes rb.virtual_end (record rb { spinlock = held })
  free ← spinlock_unlock done.ring.spinlock
  some (record done { ring = record done.ring { spinlock = free } })

unfoldable pub ringbuffer_flush : RingBuffer → RingBuffer
ringbuffer_flush rb = record rb { virtual_begin = rb.virtual_end; cursize = 0 }

-- The `n` rounds from `i` on of the loop that shifts bytes down.
pub shift_loop : List ℕ → (base i n : ℕ) → Option (List ℕ)
shift_loop buffer base i zero = some buffer
shift_loop buffer base i (suc n) = do
  b ← get_elem? buffer (base + i + 1)
  shift_loop (set buffer (base + i) b) base (i + 1) n

-- A negative location runs no round of the loop, as 0 does.
unfoldable pub ringbuffer_remove : (location : ℕ) → RingBuffer → Option (Done ℤ)
unfolding shift_loop
ringbuffer_remove location rb =
    if sub32 rb.virtual_end rb.virtual_begin == 0
    then some (record { result = negsuc 0; errno = none; ring = rb })
    else if optimize_ushortint rb.flags
    then (do
      buffer ←
          shift_loop rb.buffer (u16 (u16 rb.virtual_end + 2 ^ 32 - u32 location - 1)) 0
            (location - 1)
      if ltb rb.virtual_end (length buffer)
          then some (record {
            result = pos 0;
            errno = none;
            ring = record rb {
              buffer = set buffer rb.virtual_end 0;
              virtual_end = sub32 rb.virtual_end 1;
            };
          })
          else none)
    else some (record { result = negsuc 0; errno = some enosys; ring = rb })
