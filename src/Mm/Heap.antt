-- ===== src/Mm/Heap.antt =====
-- kernel/mm/heap.c: the watermark allocator of the boot, the heaps over the block allocator, and the
-- list of all heaps. The call of `kmalloc_base` is the one that asks for no physical address.
pub mod Watermark
pub mod RoundTrip
use yanix.Common.{
  ℕ, zero, suc, ◌+◌, ◌-◌, ◌*◌, ◌/◌, ◌%◌, ◌^◌, Bool, true, false, not, ◌&&◌, Option, none, some,
  List, [], ◌∷◌, ◌++◌, ◌==◌, ltb, leb, if◌then◌else◌,
}
use yanix.Common.Int.{ℤ, pos, negsuc}
use yanix.Mm.Blocks.Requests.{get_free, free_node}
use yanix.Mm.Blocks.{
  create_linkedlist, Ptr, State, LinkedList, Cmd, pure, null, u32, sub32, sizeof_node, ◌>>=◌,
}

-- `struct heap`; the order of the list of heaps stands for `nextheap`.
pub record Heap : Type 0 where
  pub start : ℕ
  pub size : ℕ
  pub maxsize : ℕ
  pub usermode : ℕ
  pub linkedlist : LinkedList

-- `placement_address` and `heaplist`.
pub record Heaps : Type 0 where
  pub placement : ℕ
  pub heaplist : List Heap

-- Bytes of a `struct heap` and of a `struct linkedlist`.
abbrev pub sizeof_heap : ℕ
sizeof_heap = 24

abbrev pub sizeof_linkedlist : ℕ
sizeof_linkedlist = 24

-- The address of the memory, and the new watermark.
unfoldable pub simple_alloc : (size : ℕ) (align : Bool) (placement : ℕ) → ℕ × ℕ
simple_alloc size align placement =
    let aligned = if align then u32 (placement - placement % 0x1000 + 0x1000) else placement in
    let placement' = u32 (aligned + size) in (sub32 placement' size, placement')

-- 0 where the node is null.
unfoldable pub alloc : (fuel size : ℕ) (align : Bool) → Cmd Ptr
alloc fuel size align = do
  freenode ← get_free fuel size align
  if freenode == null then pure 0 else pure (u32 (freenode + sizeof_node))

unfoldable pub free : (fuel : ℕ) → (memory : Ptr) → Cmd ℤ
free fuel memory = free_node fuel (sub32 memory sizeof_node)

-- The kernel heap, not `ready` before `init_kheap`.
pub record Kernel : Type 0 where
  pub ready : Bool
  pub placement : ℕ
  pub blocks : State

unfoldable pub kmalloc_base : (fuel size : ℕ) (align : Bool) → Kernel → Option (Ptr × Kernel)
kmalloc_base fuel size align k =
    if k.ready
    then elim (alloc fuel size align k.blocks) [
      | none ↦ none
      | some (addr, blocks) ↦ some (addr, record k { blocks = blocks })
    ]
    else (let (addr, placement) = simple_alloc size align k.placement in
        some (addr, record k { placement = placement }))

unfoldable pub kmalloc : (fuel size : ℕ) → Kernel → Option (Ptr × Kernel)
kmalloc fuel size k = kmalloc_base fuel size false k

-- Before `init_kheap` the heap is the null pointer.
unfoldable pub kfree : (fuel : ℕ) → Ptr → Kernel → Option (ℤ × Kernel)
kfree fuel addr k =
    if k.ready
    then elim (free fuel addr k.blocks) [
      | none ↦ none
      | some (result, blocks) ↦ some (result, record k { blocks = blocks })
    ]
    else none

-- The heap that the address lies in, if any.
unfoldable pub is_addr_in_heap : (addr : ℕ) → List Heap → Option Heap
is_addr_in_heap addr [] = none
is_addr_in_heap addr (tmp ∷ heaps) =
    if leb tmp.start addr && ltb addr (u32 (tmp.start + tmp.maxsize))
    then some tmp
    else is_addr_in_heap addr heaps

-- At the end of the list.
unfoldable pub add_heap : Heap → List Heap → List Heap
add_heap heap [] = heap ∷ []
add_heap heap (tmp ∷ heaps) = tmp ∷ add_heap heap heaps

-- `given` says that the caller has the memory of the structure. The result is the heap.
unfoldable pub create_heap : (given : Bool) (start maxsize usermode : ℕ) → Heaps → Heap × Heaps
create_heap given start maxsize usermode s =
    let below = if given then s.placement else (simple_alloc sizeof_heap false s.placement).1 in
    let heap : Heap = record {
      start = start;
      size = 0;
      maxsize = maxsize;
      usermode = usermode;
      linkedlist = create_linkedlist start maxsize usermode;
    } in
    (
      heap,
      record {
        placement = (simple_alloc sizeof_linkedlist false below).1;
        heaplist = add_heap heap s.heaplist;
      },
    )

-- KHEAP_START, KHEAP_MAXSIZE, UHEAP_START and UHEAP_MAXSIZE.
unfoldable pub init_kheap : Heaps → Heap × Heaps
init_kheap s = create_heap false 0xC0000000 0x1000000 0 s

unfoldable pub init_uheap : Heaps → Heap × Heaps
init_uheap s = create_heap false 0xD0000000 0x1000000 1 s
