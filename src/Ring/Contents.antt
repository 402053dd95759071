-- ===== src/Ring/Contents.antt =====
-- The invariant of a ring buffer of the one mode that the kernel uses, and the bytes that it holds.
use yanix.Common.{
  ℕ, ◌-◌, ◌≤◌, ◌≡◌, refl, true, List, [], arith, length, drop, length-take, length-drop,
}
use yanix.Common.{slice}
use yanix.Ring.{RingBuffer, create_ringbuffer, optimize_ushortint}

-- The bytes that were written and not read yet.
abbrev pub contents : RingBuffer → List ℕ
contents rb = slice rb.buffer rb.virtual_begin rb.virtual_end

-- The block has USHRT_MAX bytes, so its last index is 65534; the counters have not passed it.
-- `cursize`, what a reader may take, lies within what is held.
pub record IsValid (rb : RingBuffer) : Type 0 where
  pub mode : optimize_ushortint rb.flags ≡ true
  pub block : length rb.buffer ≡ 65535
  pub order : rb.virtual_begin ≤ rb.virtual_end
  pub inside : rb.virtual_end ≤ 65535
  pub committed : rb.cursize ≤ rb.virtual_end - rb.virtual_begin

-- A ring buffer made with RINGBUFFER_OPTIMIZE_USHORTINT is valid and holds nothing, whatever size
-- is asked for and whatever the block held.
pub create-empty :
    (size flags : ℕ) (garbage : ℕ → List ℕ)
    → ((n : ℕ) → length (garbage n) ≡ n)
    → optimize_ushortint flags ≡ true
    → IsValid (create_ringbuffer size flags garbage)
      × (contents (create_ringbuffer size flags garbage) ≡ [])
unfolding create_ringbuffer
create-empty size flags garbage exact mode = (
  record {
    mode = mode;
    block = rw mode (exact 65535);
    order = omega arith;
    inside = omega arith;
    committed = omega arith;
  },
  refl,
)

pub length-contents :
    {rb : RingBuffer} → IsValid rb → length (contents rb) ≡ rb.virtual_end - rb.virtual_begin
length-contents {rb} h = omega (
  arith,
  length-take (rb.virtual_end - rb.virtual_begin) (drop rb.virtual_begin rb.buffer),
  length-drop rb.virtual_begin rb.buffer,
  h.block,
)
