-- ===== src/Fd/Vector/Open.antt =====
-- `vector_push` and `vector_add`: where a new open file goes.
use yanix.Common.{
  ℕ, ◌*◌, ◌<◌, ◌≡◌, ◌≢◌, refl, inl, inr, Bool, false, Option, none, arith, ◌==◌, length, Bool-cases,
  lt→ltb, ==→eq, Returns, returns, Returns-mono, ok_by,
}
use yanix.Common.Int.{ℤ, pos, negsuc}
use yanix.Fd.Vector.{FileDescriptor, Vector, push, add, size_mul, sizeof_fd, find_free}
use yanix.Fd.Vector.Valid.{
  IsValid, slot, slot-eq-entry, Search, all_open, first_free, find_free-Search,
}
use yanix.Fd.Vector.Slots.{Placed, store-Placed, Placed-Grown, put_last-Placed}
use yanix.Fd.Vector.Grow.{HeapLimit, expand-granted, expand-refused}

-- What `vector_push` does: it appends, or returns -1 where the vector is full and cannot grow.
pub data Pushed (kmalloc : ℕ → Bool) (v : Vector) (fd : FileDescriptor) : ℤ × Vector → Type 0 where
  pushed : {v' : Vector} → Placed v fd v.size v' → Pushed kmalloc v fd (pos v.size, v')
  no_memory :
      v.size ≡ v.maxsize
      → kmalloc (size_mul sizeof_fd (v.maxsize * 2)) ≡ false
      → Pushed kmalloc v fd (negsuc 0, v)

-- What `vector_add` does: it takes the lowest descriptor that is not open, or returns -1 where all
-- are open and the vector cannot grow.
pub data Added (kmalloc : ℕ → Bool) (v : Vector) (fd : FileDescriptor) : ℤ × Vector → Type 0 where
  added :
      {v' : Vector} (i : ℕ)
      → slot v i ≡ none
      → ((j : ℕ) → j < i → slot v j ≢ none)
      → Placed v fd i v'
      → Added kmalloc v fd (pos i, v')
  exhausted :
      ((j : ℕ) → j < v.maxsize → slot v j ≢ none)
      → kmalloc (size_mul sizeof_fd (v.maxsize * 2)) ≡ false
      → Added kmalloc v fd (negsuc 0, v)

module _ {kmalloc : ℕ → Bool} (limit : HeapLimit kmalloc) {v : Vector} {fd : FileDescriptor}
    (h : IsValid v) (open' : fd.node ≢ 0) where
  push-full : v.size ≡ v.maxsize → Returns (Pushed kmalloc v fd) (push kmalloc v fd)
  unfolding push
  push-full full = elim (Bool-cases (kmalloc (size_mul sizeof_fd (v.maxsize * 2)))) [
    | inl yes' ↦
        (let (w, run, g) =
            expand-granted limit h 2 (omega (arith, h.small)) (omega (arith, h.small)) yes' in
          let (v', put, p) =
            put_last-Placed {v = w} {fd = fd} g.valid open'
              (omega (arith, g.size, g.maxsize, h.room, full)) in
          let e : w.size ≡ v.size = g.size in
          ok_by (pos v.size, v') (rw (run, put, e) ground arith)
            (pushed (Placed-Grown h g (rw e at p))))
    | inr no' ↦
        ok_by (negsuc 0, v)
          (rw (expand-refused limit h 2 (omega (arith, h.small)) no') ground arith)
          (no_memory full no')
  ]

  -- `vector_push` of an open file on a valid vector never faults; it appends the file, and returns
  -- -1 and changes nothing just where the vector is full and the heap refuses twice the capacity.
  pub push-Pushed : Returns (Pushed kmalloc v fd) (push kmalloc v fd)
  unfolding push
  push-Pushed = elim (Bool-cases (v.size == v.maxsize)) [
    | inl full ↦ push-full (==→eq _ _ full)
    | inr room ↦
        (let (v', put, p) = put_last-Placed h open' (ground (arith, h.used)) in
          ok_by (pos v.size, v') (rw (room, put)) (pushed p))
  ]

  -- The search of `vector_add` over the entries below the size.
  add_by :
      (found : Option (Option ℕ))
      → find_free v.buffer 0 v.size ≡ found
      → Search v.buffer 0 v.size found
      → Returns (Added kmalloc v fd) (add kmalloc v fd)
  unfolding add
  add_by found e (all_open busy) = rw e (Returns-mono push-Pushed (λ out. appended out))
    where
      busy_below : (j : ℕ) → j < v.size → slot v j ≢ none
      busy_below j p = rw (slot-eq-entry j h) (busy j (omega arith) (omega arith))

      appended : (out : ℤ × Vector) → Pushed kmalloc v fd out → Added kmalloc v fd out
      appended out (pushed p) =
          added v.size (rw (slot-eq-entry v.size h) (h.unused v.size (omega arith))) busy_below p
      appended out (no_memory full refused) = exhausted (λ j p. busy_below j (omega arith)) refused
  add_by found e (first_free k lo hi free before) =
      rw (e, lt→ltb k (length v.buffer) (omega (arith, h.storage, h.used)))
        (returns (
          added k (rw (slot-eq-entry k h) free)
            (λ j p. rw (slot-eq-entry j h) (before j (omega arith) (omega arith)))
            (store-Placed k v.size h open' (omega arith) (omega arith) h.used)))

  -- `vector_add` of a file with a node to a valid vector, over a heap of which no block exceeds 16
  -- MiB, never faults: it opens the file at the lowest descriptor that is not open and changes no
  -- other, or, where all descriptors of the capacity are open and the heap refuses twice the
  -- capacity, it returns -1 and changes nothing.
  pub add-Added : Returns (Added kmalloc v fd) (add kmalloc v fd)
  add-Added = add_by _ refl (find_free-Search v.buffer 0 v.size (omega (arith, h.used, h.storage)))
