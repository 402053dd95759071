-- ===== src/Vfs/File.antt =====
-- kernel/fs/vfs/vfs.c: the calls on descriptors and on nodes that read, write, seek, open, close
-- and describe a file. The functions that a node's pointers name, and `fs_read` and `fs_write`, are
-- arguments; a count is an `int`, kept modulo 2 ^ 32.
pub mod Stat
pub mod Seek
pub mod Types
pub mod Transfer
use yanix.Common.{
  ℕ, zero, suc, ◌+◌, ◌-◌, ◌*◌, ◌%◌, ◌/◌, ◌^◌, Bool, true, false, not, ◌&&◌, ◌||◌, Option, none,
  some, List, [], ◌∷◌, ◌==◌, ltb, if◌then◌else◌, get_elem?, set,
}
use yanix.Common.Int.{ℤ, pos, negsuc}
use yanix.Libk.Math.{roundup}
use yanix.Fd.Vector.{FileDescriptor, Vector}
use yanix.Fd.Table.{
  Files, deref, get_filedescriptor, get_filedescriptor_node, get_filedescriptor_from_node,
  register_filedescriptor, close_filedescriptor,
}
use yanix.Vfs.{
  Ptr, null, String, Filesystem, Node, State, Cmd, pure, ◌>>=◌, ◌>>◌, fault, load, set_errno,
}
use yanix.Vfs.Lookup.{vfs_find_path}

-- EUNATCH of errno.h.
abbrev pub eunatch : ℕ
eunatch = 49

-- An `int` modulo 2 ^ 32.
abbrev pub u32 : ℤ → ℕ
u32 (pos n) = n % 2 ^ 32
u32 (negsuc n) = (2 ^ 32 - 1 - n % 2 ^ 32)

abbrev pub with_files : State → Option Files → Option ((Unit {0}) × State)
with_files s none = none
with_files s (some f) = some (tt, record s { files = f })

abbrev pub resume : {A : Type 0} → State → Option (A × Files) → Option (A × State)
resume s none = none
resume s (some (a, f)) = some (a, record s { files = f })

-- A call on the descriptors, with a result.
abbrev pub on_files : {A : Type 0} → (Files → Option (A × Files)) → Cmd A
on_files f s = resume s (f s.files)

-- The pointer that `get_filedescriptor` returns, as an index.
abbrev pub get_fd : ℤ → Cmd (Option ℕ)
get_fd fd = on_files (λ f. some (get_filedescriptor fd f))

abbrev pub or_fault : {A : Type 0} → Option A → Cmd A
or_fault none s = none
or_fault (some a) s = some (a, s)

abbrev pub load_fd : ℕ → Cmd FileDescriptor
load_fd i s = or_fault (deref s.files i) s

abbrev pub seek_entry : Files → Vector → (i offset : ℕ) → Option FileDescriptor → Option Files
seek_entry f v i offset none = none
seek_entry f v i offset (some e) = some (record f {
  current = some (record v { buffer = set v.buffer i (record e { seek = offset }) });
})

abbrev pub seek_table : Files → (i offset : ℕ) → Option Vector → Option Files
seek_table f i offset none = none
seek_table f i offset (some v) = seek_entry f v i offset (get_elem? v.buffer i)

-- `fd_struct->seek = offset`, for an index into the current table.
abbrev pub store_seek : Files → (i offset : ℕ) → Option Files
store_seek f i offset = seek_table f i offset f.current

abbrev pub set_seek : ℕ → ℕ → Cmd (Unit {0})
set_seek i offset s = with_files s (store_seek s.files i offset)

abbrev pub get_fs : Option Filesystem → Cmd Filesystem
get_fs = or_fault

-- `a + b` of two `int`s modulo 2 ^ 32, where it does not overflow.
abbrev pub add_int : (a b : ℕ) → Option ℕ
add_int a b =
    if ltb a (2 ^ 31)
    then (if ltb b (2 ^ 31) && not (ltb (a + b) (2 ^ 31)) then none else some ((a + b) % 2 ^ 32))
    else if not (ltb b (2 ^ 31)) && ltb (a + b) (2 ^ 32 + 2 ^ 31)
    then none
    else some ((a + b) % 2 ^ 32)

-- `fd_struct->seek += ret`, and `ret`.
abbrev pub advance : ℕ → ℤ → Cmd ℤ
advance i ret = do
  e ← load_fd i
  seek ← or_fault (add_int e.seek (u32 ret))
  set_seek i seek
  pure ret

-- What a read or write function does, at a node, an offset, an amount and flags. The buffer is its
-- own matter.
abbrev pub Transfer : Type 0
Transfer = Ptr → (offset amount flags : ℕ) → Cmd ℤ

-- The choice that `_vfs_read` and `_vfs_write` share: the node's own function, else that of the
-- file system, else none.
abbrev pub transfer :
    (own : Node → Bool) (block : Filesystem → Bool) (node_op fs_op : Transfer)
    → (i amount : ℕ) → Cmd ℤ
transfer own block node_op fs_op i amount = do
  e ← load_fd i
  n ← load e.node
  if own n then (do ret ← node_op e.node e.seek amount e.flags; advance i ret) else (do
    fs ← get_fs n.fs_info
    if block fs
        then (do ret ← fs_op e.node e.seek amount e.flags; advance i ret)
        else (do set_errno eunatch; pure (negsuc 0)))

module _ (node_op fs_op : Transfer) where
  unfoldable pub _vfs_read : (i amount : ℕ) → Cmd ℤ
  _vfs_read = transfer (λ n. n.read) (λ fs. fs.block_read) node_op fs_op

  unfoldable pub _vfs_write : (i amount : ℕ) → Cmd ℤ
  _vfs_write = transfer (λ n. n.write) (λ fs. fs.block_write) node_op fs_op

  unfoldable pub vfs_read_fd : (fd : ℤ) (amount : ℕ) → Cmd ℤ
  vfs_read_fd fd amount = do
    p ← get_fd fd
    elim p [ none ↦ pure (negsuc 0) | some i ↦ _vfs_read i amount ]

  unfoldable pub vfs_write_fd : (fd : ℤ) (amount : ℕ) → Cmd ℤ
  vfs_write_fd fd amount = do
    p ← get_fd fd
    elim p [ none ↦ pure (negsuc 0) | some i ↦ _vfs_write i amount ]

  -- On a `struct file`, of which only the descriptor is used.
  unfoldable pub vfs_read : (fd : ℤ) (amount : ℕ) → Cmd ℤ
  vfs_read fd amount = do p ← get_fd fd; elim p [ none ↦ fault | some i ↦ _vfs_read i amount ]

  unfoldable pub vfs_write : (fd : ℤ) (amount : ℕ) → Cmd ℤ
  vfs_write fd amount = do p ← get_fd fd; elim p [ none ↦ fault | some i ↦ _vfs_write i amount ]
