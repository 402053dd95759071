-- ===== src/Fd/Vector.antt =====
-- kernel/yanix/ds/fd_vector.c: the growing array that holds the file descriptors of a task.
-- A function that updates `*vec` returns the new vector beside its result, and faults (`none`) where
-- the C reads or writes outside the block of the buffer, divides by zero or overflows an `int`.
pub mod Valid
pub mod Lemmas
pub mod Grow
pub mod Slots
pub mod Open
pub mod Assign
use yanix.Common.{
  ℕ, zero, suc, ◌+◌, ◌-◌, ◌*◌, ◌/◌, ◌%◌, ◌^◌, Bool, true, false, ◌&&◌, Option, none, some, List,
  ◌++◌, ◌==◌, ltb, leb, if◌then◌else◌, length, get_elem?, set, take, drop, replicate, ◌>>=◌, ◌>>◌,
  check,
}
use yanix.Common.Int.{ℤ, pos, negsuc}
use yanix.Libk.Math.{roundup}

-- `struct file_descriptor`. The node is the address of a `vfs_node_t`, 0 where the entry is unused;
-- the other fields are the bit patterns that the C stores.
pub record FileDescriptor : Type 0 where
  pub node : ℕ
  pub mode : ℕ
  pub flags : ℕ
  pub seek : ℕ
  pub lock_index : ℕ

-- An entry of zero bytes.
abbrev pub zeroed : FileDescriptor
zeroed = record { node = 0; mode = 0; flags = 0; seek = 0; lock_index = 0 }

-- `vector_t`. The list is the block that `vector_buffer` points to, as whole entries.
pub record Vector : Type 0 where
  pub buffer : List FileDescriptor
  pub size : ℕ
  pub maxsize : ℕ

-- Bytes of a `struct file_descriptor` and of a `vector_t` on i386.
abbrev pub sizeof_fd : ℕ
sizeof_fd = 20

abbrev pub sizeof_vector : ℕ
sizeof_vector = 12

-- VECTOR_BEGIN_AMOUNT
abbrev pub begin_amount : ℕ
begin_amount = 8

-- The product of two `size_t`.
abbrev pub size_mul : ℕ → ℕ → ℕ
size_mul a b = (a * b) % 2 ^ 32

-- How many bytes the first `n` entries take, counted in whole entries: the `size_t` product wraps.
abbrev pub entries : ℕ → ℕ
entries n = size_mul sizeof_fd n / sizeof_fd

-- `memcpy` of the first `n` entries of `src` over those of `dst`.
abbrev pub copy_into : List FileDescriptor → List FileDescriptor → ℕ → Option (List FileDescriptor)
copy_into dst src n =
    if leb n (length src) && leb n (length dst) then some (take n src ++ drop n dst) else none

-- `memcpy` of one entry to `&buffer[i]`.
abbrev pub store : List FileDescriptor → ℕ → FileDescriptor → Option (List FileDescriptor)
store buffer i fd = if ltb i (length buffer) then some (set buffer i fd) else none

-- The loop that looks for an entry without a node, over `n` indices from `i` on.
pub find_free : List FileDescriptor → ℕ → ℕ → Option (Option ℕ)
find_free buffer i zero = some none
find_free buffer i (suc n) = do
  fd ← get_elem? buffer i
  if fd.node == 0 then some (some i) else find_free buffer (i + 1) n

-- The loop that looks for an entry with the given node.
pub find_node : List FileDescriptor → ℕ → ℕ → ℕ → Option (Option ℕ)
find_node buffer node i zero = some none
find_node buffer node i (suc n) = do
  fd ← get_elem? buffer i
  if fd.node == node then some (some i) else find_node buffer node (i + 1) n

-- The pointer that `vector_get` returns, as an index; `none` is the null pointer. Its one caller
-- has turned negative descriptors away.
unfoldable pub get : Vector → ℕ → Option ℕ
get v fd = if ltb fd v.size then some fd else none

unfoldable pub get_node : Vector → ℕ → Option (Option ℕ)
unfolding find_node
get_node v node = if node == 0 then some none else find_node v.buffer node 0 v.size

unfoldable pub clear : Vector → ℕ → Option Vector
clear v fd = do
  e ← get_elem? v.buffer fd
  some (record v { buffer = set v.buffer fd (record e { node = 0 }) })

-- The write at `size` and the increment.
pub put_last : Vector → FileDescriptor → Option (ℤ × Vector)
put_last v fd = do
  check (ltb (v.size + 1) (2 ^ 31))
  buffer ← store v.buffer v.size fd
  some (pos v.size, record v { buffer = buffer; size = v.size + 1 })

-- The write to entry `i`, with the size raised where the entry lies past it.
pub put_at : Vector → ℕ → FileDescriptor → Option (ℤ × Vector)
put_at v i fd = do
  check (ltb (i + 1) (2 ^ 31))
  buffer ← store v.buffer i fd
  some (pos i, record v { buffer = buffer; size = if leb v.size i then i + 1 else v.size })

-- `kmalloc n` says whether the kernel heap has a block of `n` bytes at the time of the call. No
-- call here gets two blocks of one size, and a request that fails leaves the heap as it was.
module _ (kmalloc : ℕ → Bool) where
  unfoldable pub create : Option Vector
  create =
      if kmalloc sizeof_vector
      then if kmalloc (sizeof_fd * begin_amount) then some fresh else none
      else none
    where
      fresh : Vector
      fresh = record { buffer = replicate begin_amount zeroed; size = 0; maxsize = begin_amount }

  -- The copy, or `some none` where there is no memory for it.
  unfoldable pub copy : Vector → Option (Option Vector)
  copy cp =
      if kmalloc sizeof_vector && kmalloc (size_mul sizeof_fd cp.maxsize)
      then (do
        buffer ← copy_into (replicate (entries cp.maxsize) zeroed) cp.buffer (entries cp.maxsize)
        some (some (record cp { buffer = buffer })))
      else some none

  -- True is the 0 and false the -1 that `vector_expand` returns.
  unfoldable pub expand : Vector → ℕ → Option (Bool × Vector)
  expand v amount = do
    let newsize = v.maxsize * amount
    check (ltb newsize (2 ^ 31))
    if kmalloc (size_mul sizeof_fd newsize)
        then (do
          buffer ← copy_into (replicate (entries newsize) zeroed) v.buffer (entries v.maxsize)
          some (true, record { buffer = buffer; size = v.size; maxsize = newsize }))
        else some (false, v)

  unfoldable pub push : Vector → FileDescriptor → Option (ℤ × Vector)
  unfolding put_last
  push v fd =
      if v.size == v.maxsize
      then (do (grown, v') ← expand v 2; if grown then put_last v' fd else some (negsuc 0, v'))
      else put_last v fd

  unfoldable pub add : Vector → FileDescriptor → Option (ℤ × Vector)
  unfolding find_free
  add v fd = do
    slot ← find_free v.buffer 0 v.size
    elim slot [
      | some i ↦ (do buffer ← store v.buffer i fd; some (pos i, record v { buffer = buffer }))
      | none ↦ push v fd
    ]

  -- Room for the entry `least`. Whether it was found is not looked at.
  reserve : Vector → ℕ → Option Vector
  reserve v least = do amount ← roundup least v.maxsize; (_, v') ← expand v amount; some v'

  -- A negative `from` starts the loop in front of the buffer.
  unfoldable pub add_from : Vector → FileDescriptor → ℤ → Option (ℤ × Vector)
  unfolding find_free put_at reserve
  add_from v fd (negsuc _) = none
  add_from v fd (pos from) = do
    v' ← (if ltb v.maxsize from then reserve v from else some v)
    slot ← find_free v'.buffer from (v'.maxsize - from)
    elim slot [ some i ↦ put_at v' i fd | none ↦ push v' fd ]

  -- A negative descriptor is written in front of the buffer.
  unfoldable pub set_fd : Vector → FileDescriptor → ℤ → Option (ℤ × Vector)
  unfolding put_at reserve
  set_fd v fd (negsuc _) = none
  set_fd v fd (pos i) = do v' ← (if leb v.maxsize i then reserve v i else some v); put_at v' i fd
