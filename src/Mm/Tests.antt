-- ===== src/Mm/Tests.antt =====
-- Runs of kernel/mm/linkedlist.c and kernel/mm/heap.c on a heap of three blocks.
use yanix.Common.{◌≡◌, refl, false, Option, none, some, [], ◌∷◌, arith, ◌==◌, if◌then◌else◌}
use yanix.Common.Int.{pos}
use yanix.Mm.Blocks.{Ptr, Node, State}
use yanix.Mm.Blocks.Requests.{get_free, free_node}
use yanix.Mm.Heap.{Heaps, add_heap, alloc, free, create_heap, init_kheap, is_addr_in_heap}
use yanix.Mm.Heap.RoundTrip.{free-alloc}
use yanix.Mm.Blocks.Segments.{BlockList, node}
use yanix.Mm.Blocks.Release.{Lists}
use yanix.Mm.Blocks.Insert.{insert_block}
use yanix.Mm.Blocks.Free.{free_node-Lists}
use yanix.Mm.Blocks.Fit.{Fitted, get_free-Fitted}

abbrev three_blocks : Ptr → Option Node
three_blocks p =
    if p == 1000
    then some (node 40 0 0)
    else if p == 2000
    then some (node 64 3000 0)
    else if p == 3000
    then some (node 200 0 2000)
    else none

-- Block 1000 is in use, blocks 2000 and 3000 are free.
abbrev heap_state : State
heap_state = record {
  cell = three_blocks;
  list = record {
    memstart = 1000;
    maxsize = 10000;
    cursize = 2212;
    user = 0;
    start_used = 1000;
    start_free = 2000;
  };
  errno = none;
}

abbrev free_blocks : BlockList
free_blocks = (2000, 64) ∷ (3000, 200) ∷ []

heap_state-Lists : Lists heap_state ((1000, 40) ∷ []) free_blocks
heap_state-Lists = record {
  start_used = refl;
  used_seg = (omega arith, refl, refl, tt);
  start_free = refl;
  free_seg = (omega arith, refl, refl, (omega arith, refl, refl, tt));
  apart = λ a i. ground arith;
}

get_free-Fitted_example :
    (s' : State) × (get_free 5 100 false heap_state ≡ some (3000, s'))
    × Fitted ((1000, 40) ∷ []) ((2000, 64) ∷ []) [] 3000 200 100 s'
get_free-Fitted_example =
    get_free-Fitted 5 heap_state ((1000, 40) ∷ []) ((2000, 64) ∷ []) [] 3000 200 100
      heap_state-Lists (omega arith) (omega arith) (omega arith) (omega arith) 100 refl
      (omega arith, tt) refl refl

free_node-Lists_example :
    (s' : State) × (free_node 5 1000 heap_state ≡ some (pos 0, s'))
    × Lists s' [] (insert_block 1000 40 free_blocks)
free_node-Lists_example =
    free_node-Lists 5 heap_state [] [] free_blocks 1000 40 heap_state-Lists (omega arith)
      (omega arith)

free-alloc_example :
    (s' s'' : State) × (alloc 5 300 false heap_state ≡ some (3224, s'))
    × (free 5 3224 s' ≡ some (pos 0, s''))
    × Lists s'' ((1000, 40) ∷ []) (insert_block 3212 300 free_blocks)
free-alloc_example =
    free-alloc 5 heap_state ((1000, 40) ∷ []) free_blocks 300 300 3212 refl heap_state-Lists
      (omega arith, (omega arith, tt)) (omega arith) (omega arith) (omega arith) refl (omega arith)
      (omega arith) refl refl (omega arith)

-- The kernel heap, as `init_kheap` makes it before the user heap.
abbrev kernel_heaps : Heaps
kernel_heaps = (init_kheap (record { placement = 0x200000; heaplist = [] })).1

kernel_heaps-outside : is_addr_in_heap 0xD0000010 kernel_heaps.heaplist ≡ none
unfolding is_addr_in_heap init_kheap create_heap add_heap
kernel_heaps-outside = refl
