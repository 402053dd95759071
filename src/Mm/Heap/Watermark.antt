-- ===== src/Mm/Heap/Watermark.antt =====
-- The watermark allocator, and the search for the heap of an address.
use yanix.Common.{
  ℕ, ◌+◌, ◌%◌, ◌^◌, ◌≤◌, ◌<◌, ◌≡◌, refl, inl, inr, Bool, true, false, ◌&&◌, Option, none, some,
  List, [], ◌∷◌, arith, ltb, leb, Bool-cases,
}
use yanix.Mm.Heap.{Heap, Heaps, simple_alloc, is_addr_in_heap, add_heap, create_heap}

-- What a call of the watermark allocator hands out.
pub record Handed (size : ℕ) (align : Bool) (placement : ℕ) (out : ℕ × ℕ) : Type 0 where
  pub above : placement ≤ out.0
  pub behind : out.1 ≡ out.0 + size
  pub aligned : align ≡ true → out.0 % 4096 ≡ 0
  pub tight : align ≡ false → out.0 ≡ placement

-- `simple_alloc` with room below 4 GiB hands out memory between the old watermark and the new one,
-- so that no two calls overlap; it starts at a page where that is asked for, and else right at the
-- old watermark.
pub simple_alloc-Handed :
    (size : ℕ) (align : Bool) (placement : ℕ)
    → placement + size + 4096 < 2 ^ 32
    → Handed size align placement (simple_alloc size align placement)
unfolding simple_alloc
simple_alloc-Handed size true placement room = record {
  above = omega arith;
  behind = omega arith;
  aligned = λ e. omega arith;
  tight = λ e. absurd (cc);
}
simple_alloc-Handed size false placement room = record {
  above = omega arith;
  behind = omega arith;
  aligned = λ e. absurd (cc);
  tight = λ e. omega arith;
}

-- The address lies in the range of the heap.
abbrev pub holds : ℕ → Heap → Bool
holds addr heap = leb heap.start addr && ltb addr (heap.start + heap.maxsize)

-- No heap reaches the end of the address space.
abbrev pub Below4G : List Heap → Type 0
Below4G [] = Unit {0}
Below4G (heap ∷ heaps) = (heap.start + heap.maxsize < 2 ^ 32) × Below4G heaps

-- What the search over the heaps comes back with.
pub data Looked (addr : ℕ) : List Heap → Option Heap → Type 0 where
  nowhere : Looked addr [] none
  here :
      {heap : Heap} {heaps : List Heap}
      → holds addr heap ≡ true
      → Looked addr (heap ∷ heaps) (some heap)
  further :
      {heap : Heap} {heaps : List Heap} {r : Option Heap}
      → holds addr heap ≡ false
      → Looked addr heaps r
      → Looked addr (heap ∷ heaps) r

-- `is_addr_in_heap` returns the first heap of the list whose range holds the address, or null where
-- none does.
pub is_addr_in_heap-Looked :
    (addr : ℕ) (heaps : List Heap) → Below4G heaps → Looked addr heaps (is_addr_in_heap addr heaps)
unfolding is_addr_in_heap
is_addr_in_heap-Looked addr [] h = nowhere
is_addr_in_heap-Looked addr (heap ∷ heaps) (small, h) =
    let whole : (heap.start + heap.maxsize) % 2 ^ 32 ≡ heap.start + heap.maxsize = omega arith in
    elim (Bool-cases (holds addr heap)) [
      | inl yes' ↦ rw (whole, yes') (here yes')
      | inr no' ↦ rw (whole, no') (further no' (is_addr_in_heap-Looked addr heaps h))
    ]

add_heap-found :
    (addr : ℕ) (heap : Heap) (heaps : List Heap)
    → (leb heap.start addr && ltb addr ((heap.start + heap.maxsize) % 2 ^ 32)) ≡ true
    → is_addr_in_heap addr heaps ≡ none
    → is_addr_in_heap addr (add_heap heap heaps) ≡ some heap
unfolding is_addr_in_heap add_heap
add_heap-found addr heap [] inside before = rw inside refl
add_heap-found addr heap (tmp ∷ heaps) inside before =
    elim (Bool-cases (leb tmp.start addr && ltb addr ((tmp.start + tmp.maxsize) % 2 ^ 32))) [
      | inl yes' ↦ absurd (ground (arith, before))
      | inr no' ↦ rw no' (add_heap-found addr heap heaps inside (rw no' at before))
    ]

-- A new heap is found at every address that lies in it and in no heap before it.
pub create_heap-found :
    (given : Bool) (start maxsize usermode addr : ℕ) (s : Heaps)
    → start + maxsize < 2 ^ 32
    → start ≤ addr
    → addr < start + maxsize
    → is_addr_in_heap addr s.heaplist ≡ none
    → let (heap, s') = create_heap given start maxsize usermode s in
      is_addr_in_heap addr s'.heaplist ≡ some heap
unfolding create_heap
create_heap-found given start maxsize usermode addr s small lo hi before =
    let (heap, s') = create_heap given start maxsize usermode s in
    add_heap-found addr heap s.heaplist (ground arith) before
