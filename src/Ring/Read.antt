-- ===== src/Ring/Read.antt =====
-- `ringbuffer_read_index`: it hands out the oldest bytes, as many as a reader may take.
use yanix.Common.{
  ℕ, zero, suc, ◌+◌, ◌-◌, ◌^◌, ◌≤◌, ◌<◌, ◌≡◌, refl, sym, some, List, arith, ◌==◌, if◌then◌else◌,
  length, get_elem?-within, Returns, returns, take, drop, min,
}
use yanix.Common.Int.{ℤ, pos}
use yanix.Common.{drop-slice, drop-cons, take-take}
use yanix.Ring.{RingBuffer, Done, read_loop, read_max, ringbuffer_read_index, u16, u32}
use yanix.Ring.Contents.{IsValid, contents, length-contents}

read_loop-take :
    (n : ℕ) (buffer : List ℕ) (ind : ℕ)
    → length buffer ≡ 65535
    → ind + n ≤ 65535
    → read_loop buffer ind n ≡ some (take n (drop ind buffer))
unfolding read_loop
read_loop-take zero buffer ind block fits = refl
read_loop-take (suc n) buffer ind block fits =
    let (b, at) = get_elem?-within buffer ind (omega arith) in
    let next : u16 (ind + 1) ≡ suc ind = omega arith in
    rw (at, next, read_loop-take n buffer (suc ind) block (omega arith), drop-cons buffer ind at)

-- How many bytes a call for `size` bytes takes: at most what is held, and at most `cursize` where
-- that is not 0.
abbrev pub granted : RingBuffer → ℕ → ℕ
granted rb size = min (if rb.cursize == 0 then size else min size rb.cursize) (length (contents rb))

pub record Took (rb : RingBuffer) (size : ℕ) (done : Done (ℤ × List ℕ)) : Type 0 where
  pub valid : IsValid done.ring
  pub result : done.result ≡ (pos (granted rb size), take (granted rb size) (contents rb))
  pub left : contents done.ring ≡ drop (granted rb size) (contents rb)
  pub readable : done.ring.cursize ≡ rb.cursize - granted rb size
  pub lock : done.ring.spinlock ≡ rb.spinlock

read_max-granted : {rb : RingBuffer} (size : ℕ) → IsValid rb → read_max size rb ≡ granted rb size
unfolding read_max
read_max-granted {rb} size h = ground (arith, length-contents h)

-- `ringbuffer_read_index` from the start of a valid buffer, of fewer than 4 GiB, never faults: it returns the
-- oldest bytes in order, as many as are asked for, as are held, and as `cursize` allows where that
-- is not 0; it takes exactly those out, lowers `cursize` by their number without wrapping, and
-- leaves the lock alone.
pub read_index-Took :
    {rb : RingBuffer} (size : ℕ)
    → IsValid rb
    → size < 2 ^ 32
    → Returns (Took rb size) (ringbuffer_read_index size rb.virtual_begin rb)
unfolding ringbuffer_read_index
read_index-Took {rb} size h small =
    let start : u16 rb.virtual_begin ≡ rb.virtual_begin = omega arith in
    let n : ℕ = granted rb size in
    let held_bytes = length-contents h in
    let max : read_max size rb ≡ n = read_max-granted size (record {
      mode = h.mode;
      block = h.block;
      order = h.order;
      inside = h.inside;
      committed = h.committed;
    }) in
    let enough : n ≤ rb.virtual_end - rb.virtual_begin = omega arith in
    rw (h.mode, start, max, read_loop-take n rb.buffer rb.virtual_begin h.block (omega arith))
      (returns (record {
        valid = record {
          mode = h.mode;
          block = h.block;
          order = omega arith;
          inside = h.inside;
          committed = ground arith;
        };
        result = rw (
            take-take (drop rb.virtual_begin rb.buffer) (rb.virtual_end - rb.virtual_begin) n
              enough);
        left =
            let end : u32 (rb.virtual_begin + n) ≡ rb.virtual_begin + n = omega arith in
            rw end (sym (drop-slice rb.buffer rb.virtual_begin rb.virtual_end n));
        readable = ground arith;
        lock = refl;
      }))
