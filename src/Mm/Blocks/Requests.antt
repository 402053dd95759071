-- ===== src/Mm/Blocks/Requests.antt =====
-- kernel/mm/linkedlist.c: the calls that give out blocks and take them back.
use yanix.Common.{
  ℕ, zero, suc, ◌+◌, ◌-◌, ◌*◌, ◌%◌, Bool, true, false, not, ◌&&◌, ◌||◌, ◌==◌, ltb, leb,
  if◌then◌else◌,
}
use yanix.Common.Int.{ℤ, pos, negsuc}
use yanix.Mm.Blocks.{
  Ptr, null, Cmd, pure, fault, sizeof_node, nodesize_max, enomem, efault, u32, sub32, load, store,
  set_size, get_list, put_list, set_errno, add_to_used, add_to_free, mark_used, mark_free, Node,
  ◌>>=◌, ◌>>◌,
}

-- (mem & 0xFFFFF000) + 0x1000
unfoldable pub next_page_address : ℕ → ℕ
next_page_address mem = u32 (mem - mem % 0x1000 + 0x1000)

-- A free node in front of the aligned one, and the aligned one.
unfoldable pub expand_heap_align_split : (fuel nodesize heapend alignoffset : ℕ) → Cmd Ptr
expand_heap_align_split fuel nodesize heapend alignoffset = do
  store heapend (record { size = sub32 alignoffset (sizeof_node * 2); next = null; prev = null })
  add_to_free fuel heapend
  let newnode = sub32 (heapend + alignoffset) sizeof_node
  store newnode (record { size = nodesize; next = null; prev = null })
  list ← get_list
  put_list (record list { cursize = u32 (list.cursize + (alignoffset + nodesize)) })
  pure newnode

-- The one node at the end of the heap, for the byte count that the heap grows by.
unfoldable pub expand_by : (nodesize grown : ℕ) → Cmd Ptr
expand_by nodesize grown = do
  list ← get_list
  let newnode = u32 (list.memstart + list.cursize)
  store newnode (record { size = nodesize; next = null; prev = null })
  put_list (record list { cursize = u32 (list.cursize + grown) })
  pure newnode

abbrev pub out_of_memory : Cmd Ptr
out_of_memory = do set_errno enomem; pure null

unfoldable pub expand_heap : (fuel nodesize : ℕ) (pagealign : Bool) → Cmd Ptr
expand_heap fuel nodesize pagealign = do
  list ← get_list
  let heapend = u32 (list.memstart + list.cursize)
  let offset = sub32 (next_page_address heapend) heapend
  if pagealign
      then if leb (u32 (offset + nodesize + list.cursize)) list.maxsize
        then if leb (sizeof_node * 2 + nodesize_max) offset
          then expand_heap_align_split fuel nodesize heapend offset
          else if offset == sizeof_node
          then expand_by nodesize (u32 (nodesize + offset))
          else expand_heap_align_split fuel nodesize heapend (u32 (offset + 0x1000))
        else out_of_memory
      else if leb (u32 (list.cursize + nodesize + sizeof_node)) list.maxsize
      then expand_by nodesize (u32 (nodesize + sizeof_node))
      else out_of_memory

unfoldable pub perfect_fit : (fuel : ℕ) → Ptr → Cmd Ptr
perfect_fit fuel node = do mark_used fuel node; pure node

unfoldable pub split_fit : (fuel nodesize : ℕ) → Ptr → Cmd Ptr
split_fit fuel nodesize node = do
  n ← load node
  if ltb (sub32 n.size nodesize) (nodesize_max + sizeof_node)
      then (do mark_used fuel node; pure node)
      else (do
        let newnode = u32 (node + nodesize + sizeof_node)
        store newnode (record {
          size = sub32 n.size (u32 (nodesize + sizeof_node));
          next = null;
          prev = null;
        })
        set_size node nodesize
        mark_used fuel node
        add_to_free fuel newnode
        pure node)

-- Whether a free block serves: large enough, and for an aligned request one that starts at a page.
abbrev pub serves : (searchsize : ℕ) (pagealigned : Bool) → Ptr → Node → Bool
serves searchsize pagealigned tmp t =
    leb searchsize t.size && (not pagealigned || (u32 (tmp + sizeof_node) % 0x1000) == 0)

-- The two loops of `get_free`: the first block that serves, or null.
unfoldable pub find_block : (fuel searchsize : ℕ) (pagealigned : Bool) → Ptr → Cmd Ptr
find_block zero searchsize pagealigned tmp = fault
find_block (suc fuel) searchsize pagealigned tmp = if tmp == null then pure null else (do
  t ← load tmp
  if serves searchsize pagealigned tmp t
      then pure tmp
      else find_block fuel searchsize pagealigned t.next)

unfoldable pub get_free : (fuel searchsize : ℕ) (pagealigned : Bool) → Cmd Ptr
get_free fuel searchsize pagealigned = do
  let searchsize' = if ltb searchsize nodesize_max then nodesize_max else searchsize
  list ← get_list
  tmp ← find_block fuel searchsize' pagealigned list.start_free
  if tmp == null
      then (do
        newnode ← expand_heap fuel searchsize' pagealigned
        add_to_used fuel newnode
        pure newnode)
      else (do
        t ← load tmp
        if t.size == searchsize' then perfect_fit fuel tmp else split_fit fuel searchsize' tmp)

-- Whether `node` is on the list from `tmp` on.
unfoldable pub on_list : (fuel : ℕ) (tmp node : Ptr) → Cmd Bool
on_list zero tmp node = fault
on_list (suc fuel) tmp node =
    if tmp == null
    then pure false
    else if tmp == node
    then pure true
    else (do t ← load tmp; on_list fuel t.next node)

unfoldable pub free_node : (fuel : ℕ) → Ptr → Cmd ℤ
free_node fuel node = do
  list ← get_list
  used ← on_list fuel list.start_used node
  if used then (do mark_free fuel node; pure (pos 0)) else (do set_errno efault; pure (negsuc 0))

unfoldable pub dbg_is_heapblock_free : (fuel : ℕ) → Ptr → Cmd Bool
dbg_is_heapblock_free fuel node = do list ← get_list; on_list fuel list.start_free node
