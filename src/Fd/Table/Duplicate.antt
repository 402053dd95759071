-- ===== src/Fd/Table/Duplicate.antt =====
-- `dup2_filedescriptor` against the map of open files.
use yanix.Common.{
  ℕ, ◌%◌, ◌≤◌, ◌<◌, ◌≡◌, ◌≢◌, refl, sym, inl, inr, ◌⊎◌, Bool, true, false, Option, none, some,
  arith, length-set, get_elem?, set, ◌>>=◌, get_elem?-set_self,
}
use yanix.Common.Int.{ℤ, pos, negsuc}
use yanix.Fd.Vector.{FileDescriptor, Vector, get, clear, set_fd}
use yanix.Fd.Vector.Valid.{IsValid, slot}
use yanix.Fd.Vector.Slots.{Placed}
use yanix.Fd.Vector.Grow.{HeapLimit}
use yanix.Fd.Vector.Assign.{
  Assigned, within, grown, overrun_multiple, overrun_refused, set_fd-Assigned, room_for,
}
use yanix.Fd.Table.{Files, dup2_filedescriptor, close_filedescriptor}
use yanix.Fd.Table.Close.{Closed, task, close-Closed, store-Closed, Closed-Closed}

-- An open descriptor lies below the size, and its entry is the one in the buffer.
open-get :
    (v : Vector) (fd : ℕ) {e : FileDescriptor}
    → slot v fd ≡ some e
    → (get_elem? v.buffer fd ≡ some e) × (fd < v.size) × (e.node ≢ 0)
open-get v fd h = ground arith

module _ (kmalloc : ℕ → Bool) {v : Vector} (h : IsValid v) (old new errno : ℕ) {e : FileDescriptor}
    (is_open : slot v old ≡ some e) (ne : old ≢ new) where
  -- The call is the close of `new` and then the write of the entry of `old`.
  dup2_steps :
      (w : Vector) × Closed v new w
      × (dup2_filedescriptor kmalloc (pos old) (pos new) (task v errno)
          ≡ (set_fd kmalloc w e (pos new) >>= λ (fd, v'). some (fd, task v' errno)))
  unfolding dup2_filedescriptor get close_filedescriptor
  dup2_steps =
      let (w, run, c) = close-Closed new errno h in
      let (at, lt, node) = open-get v old is_open in
      (w, c, ground (arith, run, c.others old (λ p. ne (sym p))))

-- What `dup2` of two different descriptors does, the first of them open on `e`.
pub data Duplicated (kmalloc : ℕ → Bool) (v : Vector) (e : FileDescriptor) (new errno : ℕ)
    : Option (ℤ × Files) → Type 0 where
  duplicated :
      {v' : Vector}
      → (new < v.maxsize) ⊎ ((new % v.maxsize ≢ 0) × (kmalloc (room_for v new) ≡ true))
      → Placed v e new v'
      → Duplicated kmalloc v e new errno (some (pos new, task v' errno))
  overrun :
      v.maxsize ≤ new
      → (new % v.maxsize ≡ 0) ⊎ (kmalloc (room_for v new) ≡ false)
      → Duplicated kmalloc v e new errno none

-- Placing over a descriptor that was closed before is placing over the open one.
Placed-Closed :
    {v w v' : Vector} {e : FileDescriptor} {i : ℕ}
    → Closed v i w
    → Placed w e i v'
    → Placed v e i v'
Placed-Closed c p = record { valid = p.valid; slots = λ j. ground (arith, p.slots j, c.slots j) }

module _ (kmalloc : ℕ → Bool) {v w : Vector} {e : FileDescriptor} {new : ℕ} (errno : ℕ)
    (c : Closed v new w) (cap : w.maxsize ≡ v.maxsize) where
  Duplicated-Assigned :
      {r : Option (ℤ × Vector)}
      → Assigned kmalloc w e new r
      → Duplicated kmalloc v e new errno (r >>= λ (fd, v'). some (fd, task v' errno))
  Duplicated-Assigned (within lt p) = duplicated (inl (rw (← cap) lt)) (Placed-Closed c p)
  Duplicated-Assigned (grown le ne granted p) =
      duplicated (inr (rw (← cap) ne, rw (← cap) granted)) (Placed-Closed c p)
  Duplicated-Assigned (overrun_multiple le e) = overrun (rw (← cap) le) (inl (rw (← cap) e))
  Duplicated-Assigned (overrun_refused le ne refused) =
      overrun (rw (← cap) le) (inr (rw (← cap) refused))

-- `dup2` of an open descriptor onto another one below 100000000, on a valid vector: the new
-- descriptor stands for the same open file and no other changes; past the capacity this needs a
-- descriptor that is no multiple of it and a heap that grants the larger block, and else the call
-- writes outside the vector's block.
pub dup2-Duplicated :
    {kmalloc : ℕ → Bool} {v : Vector} {e : FileDescriptor} (old new errno : ℕ)
    → HeapLimit kmalloc
    → IsValid v
    → slot v old ≡ some e
    → old ≢ new
    → new < 100000000
    → Duplicated kmalloc v e new errno
        (dup2_filedescriptor kmalloc (pos old) (pos new) (task v errno))
dup2-Duplicated {kmalloc} {v} {e} old new errno limit h is_open ne small =
    let (w, c, run) = dup2_steps kmalloc h old new errno is_open ne in
    let (at, lt, node) = open-get v old is_open in
    rw run (
      Duplicated-Assigned kmalloc errno c c.maxsize
        (set_fd-Assigned limit e c.valid node new small))

-- `dup2` of an open descriptor onto itself closes it: the file that it stood for is gone, though
-- the call returns the descriptor, and the other descriptors are as they were.
pub dup2_self :
    (kmalloc : ℕ → Bool) {v : Vector} {e : FileDescriptor} (fd errno : ℕ)
    → IsValid v
    → slot v fd ≡ some e
    → (v' : Vector) × (dup2_filedescriptor kmalloc (pos fd) (pos fd) (task v errno)
        ≡ some (pos fd, task v' errno))
      × Closed v fd v'
unfolding dup2_filedescriptor get close_filedescriptor set_fd clear
dup2_self kmalloc {v} {e} fd errno h is_open =
    let (at, lt, node) = open-get v fd is_open in
    let gone : FileDescriptor = record e { node = 0 } in
    let once = store-Closed fd gone h lt refl in
    (
      record v { buffer = set (set v.buffer fd gone) fd gone },
      ground (
        arith,
        h.used,
        h.small,
        h.storage,
        get_elem?-set_self v.buffer fd gone,
        length-set v.buffer fd gone,
      ),
      Closed-Closed once (store-Closed fd gone once.valid lt refl),
    )

-- `dup2` of an open descriptor onto a negative number writes in front of the vector's block.
pub dup2-negative :
    (kmalloc : ℕ → Bool) {v : Vector} {e : FileDescriptor} (old n errno : ℕ)
    → IsValid v
    → slot v old ≡ some e
    → dup2_filedescriptor kmalloc (pos old) (negsuc n) (task v errno) ≡ none
unfolding dup2_filedescriptor get set_fd
dup2-negative kmalloc {v} old n errno h is_open = ground (arith, open-get v old is_open)
