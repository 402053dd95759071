-- ===== src/Mm/Blocks.antt =====
-- kernel/mm/linkedlist.c over an explicit memory: the nodes at their addresses, linked by pointers.
-- A command faults (`none`) where it reads a node through a null or dangling pointer, writes through
-- the null pointer, or walks for longer than its fuel.
pub mod Requests
pub mod Segments
pub mod Links
pub mod Release
pub mod Insert
pub mod Free
pub mod Fit
pub mod Grow
use yanix.Common.{
  ℕ, zero, suc, ◌+◌, ◌-◌, ◌*◌, ◌/◌, ◌%◌, ◌^◌, Bool, true, false, not, ◌&&◌, ◌||◌, Option, none,
  some, ◌==◌, ltb, leb, if◌then◌else◌,
}
use yanix.Common.Int.{ℤ, pos, negsuc}

-- An address, 0 for the null pointer.
abbrev pub Ptr : Type 0
Ptr = ℕ

abbrev pub null : Ptr
null = 0

-- `struct ll_node`.
pub record Node : Type 0 where
  pub size : ℕ
  pub next : Ptr
  pub prev : Ptr

-- `struct linkedlist`.
pub record LinkedList : Type 0 where
  pub memstart : ℕ
  pub maxsize : ℕ
  pub cursize : ℕ
  pub user : ℕ
  pub start_used : Ptr
  pub start_free : Ptr

-- The nodes in memory, the list that the calls work on, and `errno` where a call has set it.
pub record State : Type 0 where
  pub cell : Ptr → Option Node
  pub list : LinkedList
  pub errno : Option ℕ

abbrev pub Cmd : Type 0 → Type 0
Cmd A = State → Option (A × State)

abbrev pub pure : {A : Type 0} → A → Cmd A
pure a s = some (a, s)

abbrev pub and_then : {A B : Type 0} → Option (A × State) → (A → Cmd B) → Option (B × State)
and_then none f = none
and_then (some (a, s)) f = f a s

infixl 5 ◌>>=◌ ◌>>◌
abbrev pub ◌>>=◌ : {A B : Type 0} → Cmd A → (A → Cmd B) → Cmd B
m >>= f = λ s. and_then (m s) f

abbrev pub ◌>>◌ : {B : Type 0} → Cmd (Unit {0}) → Cmd B → Cmd B
m >> k = m >>= λ _. k

abbrev pub fault : {A : Type 0} → Cmd A
fault s = none

-- Bytes of a `struct ll_node`; NODESIZE_MAX; ENOMEM and EFAULT of errno.h.
abbrev pub sizeof_node : ℕ
sizeof_node = 12

abbrev pub nodesize_max : ℕ
nodesize_max = 32

abbrev pub enomem : ℕ
enomem = 12

abbrev pub efault : ℕ
efault = 14

-- `size_t` and `offset_t` arithmetic.
abbrev pub u32 : ℕ → ℕ
u32 n = n % 2 ^ 32

abbrev pub sub32 : ℕ → ℕ → ℕ
sub32 a b = (a + 2 ^ 32 - b) % 2 ^ 32

abbrev pub write : (Ptr → Option Node) → Ptr → Node → Ptr → Option Node
write cell p n q = if q == p then some n else cell q

-- `*p`.
pub load : Ptr → Cmd Node
load p s = if p == null then none else elim (s.cell p) [ none ↦ none | some n ↦ some (n, s) ]

-- All three fields of a node in raw memory.
pub store : Ptr → Node → Cmd (Unit {0})
store p n s = if p == null then none else some (tt, record s { cell = write s.cell p n })

pub set_next : Ptr → Ptr → Cmd (Unit {0})
set_next p q = do n ← load p; store p (record n { next = q })

pub set_prev : Ptr → Ptr → Cmd (Unit {0})
set_prev p q = do n ← load p; store p (record n { prev = q })

pub set_size : Ptr → ℕ → Cmd (Unit {0})
set_size p size = do n ← load p; store p (record n { size = size })

abbrev pub get_list : Cmd LinkedList
get_list s = some (s.list, s)

abbrev pub put_list : LinkedList → Cmd (Unit {0})
put_list l s = some (tt, record s { list = l })

abbrev pub set_start_used : Ptr → Cmd (Unit {0})
set_start_used p s = some (tt, record s { list = record (s.list) { start_used = p } })

abbrev pub set_start_free : Ptr → Cmd (Unit {0})
set_start_free p s = some (tt, record s { list = record (s.list) { start_free = p } })

abbrev pub set_errno : ℕ → Cmd (Unit {0})
set_errno e s = some (tt, record s { errno = some e })

-- `create_linkedlist`, for the structure that `simple_alloc` gives.
unfoldable pub create_linkedlist : (memorystart maxsize user : ℕ) → LinkedList
create_linkedlist memorystart maxsize user = record {
  memstart = memorystart;
  maxsize = maxsize;
  cursize = 0;
  user = user;
  start_used = null;
  start_free = null;
}

-- The walk `while (tmp->next) tmp = tmp->next;`.
pub last_node : (fuel : ℕ) → Ptr → Cmd Ptr
last_node zero tmp = fault
last_node (suc fuel) tmp = do
  n ← load tmp
  if n.next == null then pure tmp else last_node fuel n.next

-- The writes that make `node` the successor of `tmp` and the end of the list.
pub link_last : (tmp node : Ptr) → Cmd (Unit {0})
link_last tmp node = do set_next tmp node; set_prev node tmp; set_next node null

-- The writes that make `node` a list of its own.
pub link_alone : (node : Ptr) → Cmd (Unit {0})
link_alone node = do set_prev node null; set_next node null

unfoldable pub add_to_used : (fuel : ℕ) → Ptr → Cmd (Unit {0})
add_to_used fuel node = do
  list ← get_list
  if list.start_used == null
      then (do set_start_used node; link_alone node)
      else (do tmp ← last_node fuel list.start_used; link_last tmp node)

-- The writes that put `node` in front of `tmp`.
pub link_before : (tmp node : Ptr) → Cmd (Unit {0})
link_before tmp node = do
  t ← load tmp
  if t.prev == null then set_start_free node else set_next t.prev node
  t ← load tmp
  set_prev node t.prev
  set_prev tmp node
  set_next node tmp

-- The loop of `add_to_free`: in front of the first larger block, or at the end.
pub insert_free : (fuel : ℕ) → (size : ℕ) → (tmp node : Ptr) → Cmd (Unit {0})
insert_free zero size tmp node = fault
insert_free (suc fuel) size tmp node = do
  t ← load tmp
  if ltb size t.size
      then link_before tmp node
      else if t.next == null
      then link_last tmp node
      else insert_free fuel size t.next node

unfoldable pub add_to_free : (fuel : ℕ) → Ptr → Cmd (Unit {0})
add_to_free fuel node = do
  list ← get_list
  if list.start_free == null
      then (do set_start_free node; link_alone node)
      else (do n ← load node; insert_free fuel n.size list.start_free node)

-- The writes that take `node` out of the list whose start `set_start` sets.
pub release : (set_start : Ptr → Cmd (Unit {0})) → Ptr → Cmd (Unit {0})
release set_start node = do
  n ← load node
  if n.prev == null then set_start n.next else set_next n.prev n.next
  n ← load node
  if n.next == null then pure tt else set_prev n.next n.prev

unfoldable pub mark_used : (fuel : ℕ) → Ptr → Cmd (Unit {0})
mark_used fuel node = do release set_start_free node; add_to_used fuel node

unfoldable pub mark_free : (fuel : ℕ) → Ptr → Cmd (Unit {0})
mark_free fuel node = do release set_start_used node; add_to_free fuel node
