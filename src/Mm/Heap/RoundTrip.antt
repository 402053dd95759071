-- ===== src/Mm/Heap/RoundTrip.antt =====
-- What `alloc` hands out `free` takes back.
use yanix.Common.{
  ℕ, ◌+◌, ◌-◌, ◌%◌, ◌^◌, ◌≤◌, ◌<◌, ◌≡◌, ◌≢◌, refl, false, some, [], ◌∷◌, ◌++◌, arith, ltb,
  if◌then◌else◌, length, ne→==, length-append,
}
use yanix.Common.Int.{pos}
use mathlib.Core.List.{append-nil}
use yanix.Mm.Blocks.{State}
use yanix.Mm.Blocks.Segments.{BlockList, has}
use yanix.Mm.Blocks.Release.{Lists}
use yanix.Mm.Blocks.Insert.{insert_block}
use yanix.Mm.Blocks.Free.{free_node-Lists}
use yanix.Mm.Blocks.Fit.{Small}
use yanix.Mm.Blocks.Grow.{get_free-grows}
use yanix.Mm.Heap.{alloc, free}

-- An `alloc` that need not be aligned, and then `free` of what it returned, where no free block is
-- large enough, the end of the heap is not address 0 nor a block of either list, the new block fits
-- below `maxsize` and the sums into 32 bits, and the fuel is more than each list is long. `alloc`
-- returns the address behind the header of a new block at the end of the heap, of the size asked
-- for and at least 32. `free` of that address returns 0: the used list is the one before, and the
-- block has joined the free list in its place by size.
pub free-alloc :
    (fuel : ℕ) (s : State) (used free_blocks : BlockList) (request n q : ℕ)
    → (if ltb request 32 then 32 else request) ≡ n
    → Lists s used free_blocks
    → Small n free_blocks
    → length used + 1 < fuel
    → length free_blocks < fuel
    → s.list.cursize + n + 12 < 2 ^ 32
    → s.list.memstart + s.list.cursize ≡ q
    → q ≢ 0
    → q + 12 < 2 ^ 32
    → has q used ≡ false
    → has q free_blocks ≡ false
    → s.list.cursize + n + 12 ≤ s.list.maxsize
    → (s' s'' : State) × (alloc fuel request false s ≡ some (q + 12, s'))
      × (free fuel (q + 12) s' ≡ some (pos 0, s''))
      × Lists s'' used (insert_block q n free_blocks)
unfolding alloc free
free-alloc fuel s used fr request n q size h small lt le bound end_is q0 q32 q_used q_free room =
    let (s', run, l, grown, within') =
      get_free-grows fuel s used fr request n size h small (omega arith) le bound q end_is q0
        (omega arith) q_used q_free room in
    let long : length (used ++ (q, n) ∷ []) < fuel =
      omega (arith, length-append used ((q, n) ∷ [])) in
    let (s'', run', l') = free_node-Lists fuel s' used [] fr q n l long (omega arith) in
    let up : (q + 12) % 2 ^ 32 ≡ q + 12 = omega arith in
    let down : (q + 12 + 2 ^ 32 - 12) % 2 ^ 32 ≡ q = omega arith in
    (s', s'', rw (run, ne→== q 0 q0, up) refl, rw down run', rw (append-nil used) at l')
