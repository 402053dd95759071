-- ===== src/Fd/Vector/Slots.antt =====
-- A write of fd_vector.c at an index of the buffer, against the map of open files.
use yanix.Common.{
  ℕ, ◌+◌, ◌^◌, ◌≤◌, ◌<◌, ◌≡◌, ◌≢◌, some, arith, ◌==◌, if◌then◌else◌, length, length-set, lt→ltb,
  set,
}
use yanix.Common.Int.{pos}
use yanix.Fd.Vector.{FileDescriptor, Vector, put_last}
use yanix.Fd.Vector.Valid.{IsValid, entry, slot, slot-eq-entry}
use yanix.Fd.Vector.Lemmas.{entry-set}
use yanix.Fd.Vector.Grow.{Grown}

-- `v'` is `v` with the open file `fd` at descriptor `i`, and every other descriptor as it was.
pub record Placed (v : Vector) (fd : FileDescriptor) (i : ℕ) (v' : Vector) : Type 0 where
  pub valid : IsValid v'
  pub slots : (j : ℕ) → slot v' j ≡ (if i == j then some fd else slot v j)

-- A write at an index of the buffer, with the size at least past it.
pub store-Placed :
    {v : Vector} {fd : FileDescriptor} (i size : ℕ)
    → IsValid v
    → fd.node ≢ 0
    → i < size
    → v.size ≤ size
    → size ≤ v.maxsize
    → Placed v fd i (record { buffer = set v.buffer i fd; size = size; maxsize = v.maxsize })
store-Placed {v} {fd} i size h open' lt le bound = record { valid = valid; slots = slots }
  where
    stored : (j : ℕ) → entry (set v.buffer i fd) j ≡ (if i == j then some fd else entry v.buffer j)
    stored j = ground (arith, entry-set v.buffer i j fd, h.storage)

    valid : IsValid (record { buffer = set v.buffer i fd; size = size; maxsize = v.maxsize })
    valid = record {
      storage = omega (arith, length-set v.buffer i fd, h.storage);
      room = h.room;
      small = h.small;
      used = bound;
      unused = λ j p. ground (arith, stored j, h.unused j);
    }

    slots :
        (j : ℕ)
        → slot (record { buffer = set v.buffer i fd; size = size; maxsize = v.maxsize }) j
          ≡ (if i == j then some fd else slot v j)
    slots j = ground (arith, stored j, slot-eq-entry j h, h.unused j)

-- Placing in a grown vector is placing in the vector before it.
pub Placed-Grown :
    {v w v' : Vector} {fd : FileDescriptor} {n i : ℕ}
    → IsValid v
    → Grown v n w
    → Placed w fd i v'
    → Placed v fd i v'
Placed-Grown {v} {w} h g p = record {
  valid = p.valid;
  slots = λ j. ground (arith, p.slots j, slot-eq-entry j g.valid, g.same j, slot-eq-entry j h);
}

pub put_last-Placed :
    {v : Vector} {fd : FileDescriptor}
    → IsValid v
    → fd.node ≢ 0
    → v.size < v.maxsize
    → (v' : Vector) × (put_last v fd ≡ some (pos v.size, v')) × Placed v fd v.size v'
unfolding put_last
put_last-Placed {v} {fd} h open' lt = (
  record { buffer = set v.buffer v.size fd; size = v.size + 1; maxsize = v.maxsize },
  rw (
    lt→ltb (v.size + 1) (2 ^ 31) (omega arith),
    lt→ltb v.size (length v.buffer) (omega (arith, h.storage)),
  ),
  store-Placed v.size (v.size + 1) h open' (omega arith) (omega arith) (omega arith),
)
