-- ===== src/Fd/Table.antt =====
-- kernel/fs/filedescriptor.c: the descriptors of the current task. The state is the vector of the
-- current task (`none` before there is a task) and `errno`; a call faults (`none`) where it goes
-- through the null task or outside the vector's block.
pub mod Close
pub mod Duplicate
pub mod Exec
use yanix.Common.{
  ℕ, zero, suc, ◌+◌, ◌%◌, Bool, true, false, Option, none, some, ◌==◌, if◌then◌else◌, get_elem?,
  set, ◌>>=◌,
}
use yanix.Common.Int.{ℤ, pos, negsuc}
use yanix.Fd.Vector
use yanix.Fd.Vector.{FileDescriptor, Vector}

pub record Files : Type 0 where
  pub current : Option Vector
  pub errno : ℕ

-- EBADFD of errno.h.
abbrev pub ebadfd : ℕ
ebadfd = 77

-- The pointer that `get_filedescriptor` returns, as an index into the vector.
unfoldable pub get_filedescriptor : ℤ → Files → Option ℕ × Files
get_filedescriptor (negsuc _) s = (none, record s { errno = ebadfd })
get_filedescriptor (pos fd) s = elim s.current [
  | some v ↦ (Vector.get v fd, s)
  | none ↦ (none, record s { errno = ebadfd })
]

-- The vector that `get_current_task()->fds` names.
abbrev pub fds : Files → Option Vector
fds s = s.current

abbrev pub with_fds : Files → Vector → Files
with_fds s v = record s { current = some v }

-- `lock_index` keeps what the stack held, `garbage`.
unfoldable pub register_filedescriptor :
    (kmalloc : ℕ → Bool) (garbage node flags mode : ℕ) → Files → Option (ℤ × Files)
register_filedescriptor kmalloc garbage node flags mode s = do
  v ← fds s
  (fd, v') ←
      Vector.add kmalloc v
        (record { node = node; mode = mode; flags = flags; seek = 0; lock_index = garbage })
  some (fd, with_fds s v')

unfoldable pub get_filedescriptor_from_node : ℕ → Files → Option (Option ℕ × Files)
get_filedescriptor_from_node node s = elim s.current [
  | some v ↦ (do found ← Vector.get_node v node; some (found, s))
  | none ↦ some (none, record s { errno = ebadfd })
]

-- What a pointer into the vector points to.
abbrev pub deref : Files → ℕ → Option FileDescriptor
deref s i = do v ← fds s; get_elem? v.buffer i

unfoldable pub get_filedescriptor_node : ℤ → Files → Option (ℕ × Files)
unfolding get_filedescriptor
get_filedescriptor_node fd s =
    let (p, s') = get_filedescriptor fd s in
    elim p [ none ↦ some (0, s') | some i ↦ (do e ← deref s' i; some (e.node, s')) ]

-- Always 0; the result is the state.
unfoldable pub close_filedescriptor : ℤ → Files → Option Files
unfolding get_filedescriptor
close_filedescriptor fd s =
    let (p, s') = get_filedescriptor fd s in
    elim p [
      | none ↦ some s'
      | some i ↦ (do v ← fds s'; v' ← Vector.clear v i; some (with_fds s' v'))
    ]

-- The copy goes to the lowest descriptor at -1, and else to one from `from` on.
pub place_copy : (kmalloc : ℕ → Bool) → Vector → FileDescriptor → ℤ → Option (ℤ × Vector)
place_copy kmalloc v e (negsuc zero) = Vector.add kmalloc v e
place_copy kmalloc v e (negsuc (suc n)) = Vector.add_from kmalloc v e (negsuc (suc n))
place_copy kmalloc v e (pos n) = Vector.add_from kmalloc v e (pos n)

unfoldable pub dup_filedescriptor : (kmalloc : ℕ → Bool) (fd from : ℤ) → Files → Option (ℤ × Files)
unfolding get_filedescriptor place_copy
dup_filedescriptor kmalloc fd from s =
    let (p, s') = get_filedescriptor fd s in
    elim p [
      | none ↦ some (negsuc 0, s')
      | some i ↦ (do
        e ← deref s' i
        if e.node == 0 then some (negsuc 0, s') else (do
          v ← fds s'
          (new, v') ← place_copy kmalloc v e from
          some (new, with_fds s' v')))
    ]

unfoldable pub setflags_filedescriptor : ℤ → ℕ → Files → Option (ℤ × Files)
unfolding get_filedescriptor
setflags_filedescriptor fd flags s =
    let (p, s') = get_filedescriptor fd s in
    elim p [
      | none ↦ some (negsuc 0, s')
      | some i ↦ (do
        v ← fds s'
        e ← get_elem? v.buffer i
        some (
          pos 0,
          with_fds s' (record v { buffer = set v.buffer i (record e { flags = flags }) }),
        ))
    ]

-- flags & E_CLOEXEC, the lowest bit.
abbrev pub cloexec : FileDescriptor → Bool
cloexec e = (e.flags % 2) == 1

-- The round of the loop at descriptor `i`.
unfoldable pub close_on_exec : ℕ → Files → Option Files
unfolding get_filedescriptor
close_on_exec i s =
    let (p, s') = get_filedescriptor (pos i) s in
    elim p [
      | none ↦ some s'
      | some j ↦ (do e ← deref s' j; if cloexec e then close_filedescriptor (pos i) s' else some s')
    ]

-- The rounds at the `n` descriptors from `i` on.
pub check_from : ℕ → ℕ → Files → Option Files
check_from i zero s = some s
check_from i (suc n) s = do s' ← close_on_exec i s; check_from (i + 1) n s'

unfoldable pub check_filedescriptors : Files → Option Files
unfolding check_from
check_filedescriptors s = do v ← fds s; check_from 0 v.size s

unfoldable pub dup2_filedescriptor : (kmalloc : ℕ → Bool) (old new : ℤ) → Files → Option (ℤ × Files)
unfolding get_filedescriptor
dup2_filedescriptor kmalloc old new s =
    let (p, s') = get_filedescriptor old s in
    elim p [
      | none ↦ some (negsuc 0, s')
      | some i ↦ (do
        e ← deref s' i
        if e.node == 0 then some (negsuc 0, s') else (do
          let (q, t) = get_filedescriptor new s'
          t' ← elim q [ none ↦ some t | some _ ↦ close_filedescriptor new t ]
          -- `*oldfd` is read again, after the close.
          copied ← deref t' i
          v ← fds t'
          (fd, v') ← Vector.set_fd kmalloc v copied new
          some (fd, with_fds t' v')))
    ]
