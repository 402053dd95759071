-- ===== src/Ring/Transfer.antt =====
-- `ringbuffer_write_index` and then `ringbuffer_read_index`: what goes into the buffer comes out of it.
use yanix.Common.{
  ℕ, ◌+◌, ◌^◌, ◌≤◌, ◌<◌, ◌≡◌, ◌≢◌, ap, ◌∙◌, true, some, List, [], ◌++◌, arith, length, take_all,
  Returns-elim, drop_all, length-append,
}
use yanix.Common.Int.{ℤ, pos}
use yanix.Ring.{RingBuffer, Done, nonblock, ringbuffer_read_index, ringbuffer_write_index}
use yanix.Ring.Contents.{IsValid, contents}
use yanix.Ring.Write.{write_index-Wrote}
use yanix.Ring.Read.{Took, read_index-Took, granted}

-- All that the buffer held and the bytes written behind it.
pub record Delivered (bytes : List ℕ) (done : Done (ℤ × List ℕ)) : Type 0 where
  pub valid : IsValid done.ring
  pub result : done.result ≡ (pos (length bytes), bytes)
  pub left : contents done.ring ≡ []

Took-Delivered :
    {bytes : List ℕ} {rb : RingBuffer} {size : ℕ} {done : Done (ℤ × List ℕ)}
    → contents rb ≡ bytes
    → rb.cursize ≡ length bytes
    → length bytes ≤ size
    → Took rb size done
    → Delivered bytes done
Took-Delivered {bytes} {rb} {size} held ready enough r =
    let all : granted rb size ≡ length bytes = ground (arith, ap length held) in
    record {
      valid = r.valid;
      result = ground (arith, r.result, take_all bytes (length bytes));
      left = r.left ∙ ground (arith, drop_all bytes (length bytes));
    }

-- `ringbuffer_write_index` of some bytes at the end of a valid buffer in the mode that does not block,
-- no more bytes than are left of the block, and then `ringbuffer_read_index` from its start of as many
-- bytes as are then held or more: neither faults, the write returns the number of its bytes, and the
-- read returns what the buffer held before and then the bytes written, in order. It leaves a valid
-- buffer that holds nothing.
pub read_index-write_index :
    {rb : RingBuffer} (bytes : List ℕ) (size : ℕ)
    → IsValid rb
    → nonblock rb.flags ≡ true
    → bytes ≢ []
    → rb.virtual_end + length bytes ≤ 65535
    → length (contents rb) + length bytes ≤ size
    → size < 2 ^ 32
    → (w : Done ℤ) × (r : Done (ℤ × List ℕ)) × (ringbuffer_write_index bytes rb.virtual_end rb
        ≡ some w)
      × (ringbuffer_read_index size w.ring.virtual_begin w.ring ≡ some r)
      × (w.result ≡ pos (length bytes))
      × Delivered (contents rb ++ bytes) r
read_index-write_index {rb} bytes size h nb more fits enough small =
    let (w, wrote, left) = Returns-elim (write_index-Wrote bytes h fits) in
    let (r, took, got) = Returns-elim (read_index-Took size left.valid small) in
    (
      w,
      r,
      wrote,
      took,
      left.result,
      Took-Delivered left.appended (left.readable nb more)
          (omega (arith, enough, length-append (contents rb) bytes)) got,
    )
