-- ===== src/Fd/Vector/Assign.antt =====
-- `vector_set` and `vector_add_from`: an open file at a descriptor that the caller names.
use yanix.Common.{
  ℕ, ◌+◌, ◌-◌, ◌*◌, ◌/◌, ◌%◌, ◌^◌, ◌≤◌, ◌<◌, ◌≡◌, ◌≢◌, refl, inl, inr, Bool, true, false, Option,
  none, some, arith, leb, length, Bool-cases, lt→ltb, le→ltb, le→leb, lt→leb, set, Returns, returns,
  ok_by, Returns-elim, Returns-mono,
}
use native.Mathlib.Decide.{ℕ_discrete, dec_lt}
use yanix.Common.Int.{ℤ, pos}
use yanix.Libk.Math.{roundup}
use yanix.Fd.Vector.{
  FileDescriptor, Vector, add_from, set_fd, reserve, put_at, size_mul, sizeof_fd, find_free,
}
use yanix.Fd.Vector.Valid.{
  IsValid, slot, slot-eq-entry, Search, all_open, first_free, find_free-Search,
}
use yanix.Fd.Vector.Slots.{Placed, store-Placed, Placed-Grown}
use yanix.Fd.Vector.Open.{Pushed, push-Pushed}
use yanix.Fd.Vector.Grow.{HeapLimit, Grown, expand-granted, expand-refused}

put_at-Placed :
    {v : Vector} {fd : FileDescriptor} (i : ℕ)
    → IsValid v
    → fd.node ≢ 0
    → i < v.maxsize
    → (v' : Vector) × (put_at v i fd ≡ some (pos i, v')) × Placed v fd i v'
unfolding put_at
put_at-Placed {v} {fd} i h open' lt = elim (Bool-cases (leb v.size i)) [
  | inl past ↦ (
    record { buffer = set v.buffer i fd; size = i + 1; maxsize = v.maxsize },
    rw (
      lt→ltb (i + 1) (2 ^ 31) (omega (arith, h.small)),
      lt→ltb i (length v.buffer) (omega (arith, h.storage)),
      past,
    ),
    store-Placed i (i + 1) h open' (omega arith) (ground arith) (omega arith),
  )
  | inr below ↦ (
    record { buffer = set v.buffer i fd; size = v.size; maxsize = v.maxsize },
    rw (
      lt→ltb (i + 1) (2 ^ 31) (omega (arith, h.small)),
      lt→ltb i (length v.buffer) (omega (arith, h.storage)),
      below,
    ),
    store-Placed i v.size h open' (ground arith) (omega arith) h.used,
  )
]

-- A write past the block.
put_at-faults :
    (v : Vector) (fd : FileDescriptor) (i : ℕ) → length v.buffer ≤ i → put_at v i fd ≡ none
unfolding put_at
put_at-faults v fd i le = ground arith

-- The size that `roundup` asks for lies above the descriptor just where it is no multiple.
multiple_above : (i n : ℕ) → 0 < n → i % n ≢ 0 → i < n * (i / n + 1)
multiple_above i n p q = grind arith

multiple_below : (i n : ℕ) → 0 < n → n * (i / n + 1) ≤ i + n
multiple_below i n p = grind arith

multiple_is : (i n : ℕ) → 0 < n → i % n ≡ 0 → n * (i / n) ≡ i
multiple_is i n p e = grind arith

-- The bytes that `vector_expand` asks for to make room for descriptor `i`.
abbrev pub room_for : Vector → ℕ → ℕ
room_for v i = size_mul sizeof_fd (v.maxsize * (i / v.maxsize + 1))

module _ {kmalloc : ℕ → Bool} (limit : HeapLimit kmalloc) {v : Vector} (h : IsValid v) (i : ℕ)
    (lt : i < 100000000) (le : v.maxsize ≤ i) where
  reserve-Grown :
      i % v.maxsize ≢ 0
      → kmalloc (room_for v i) ≡ true
      → (v' : Vector) × (reserve kmalloc v i ≡ some v')
        × Grown v (v.maxsize * (i / v.maxsize + 1)) v'
  unfolding reserve roundup
  reserve-Grown rest granted =
      let above = multiple_above i v.maxsize h.room rest in
      let below = multiple_below i v.maxsize h.room in
      let (w, run, g) =
        expand-granted limit h (i / v.maxsize + 1) (omega arith) (omega (arith, h.small)) granted in
      (w, ground (arith, h.room, run), g)

  reserve-refused :
      i % v.maxsize ≢ 0 → kmalloc (room_for v i) ≡ false → reserve kmalloc v i ≡ some v
  unfolding reserve roundup
  reserve-refused rest refused =
      let below = multiple_below i v.maxsize h.room in
      let run = expand-refused limit h (i / v.maxsize + 1) (omega (arith, h.small)) refused in
      ground (arith, h.room, run)

  -- At a multiple of the capacity the block ends just below the descriptor.
  reserve-multiple : i % v.maxsize ≡ 0 → Returns (λ w. length w.buffer ≤ i) (reserve kmalloc v i)
  unfolding reserve roundup
  reserve-multiple e =
      let exact = multiple_is i v.maxsize h.room e in
      elim (Bool-cases (kmalloc (size_mul sizeof_fd (v.maxsize * (i / v.maxsize))))) [
        | inl yes' ↦
            (let (w, run, g) =
                expand-granted limit h (i / v.maxsize) (omega arith) (omega arith) yes' in
              ok_by w (ground (arith, h.room, run)) (omega (arith, g.valid.storage, g.maxsize)))
        | inr no' ↦
            (let run = expand-refused limit h (i / v.maxsize) (omega arith) no' in
              ok_by v (ground (arith, h.room, run)) (omega (arith, h.storage)))
      ]

-- What `vector_set` does at the descriptor `i`.
pub data Assigned (kmalloc : ℕ → Bool) (v : Vector) (fd : FileDescriptor) (i : ℕ)
    : Option (ℤ × Vector) → Type 0 where
  within :
      {v' : Vector} → i < v.maxsize → Placed v fd i v' → Assigned kmalloc v fd i (some (pos i, v'))
  grown :
      {v' : Vector}
      → v.maxsize ≤ i
      → i % v.maxsize ≢ 0
      → kmalloc (room_for v i) ≡ true
      → Placed v fd i v'
      → Assigned kmalloc v fd i (some (pos i, v'))
  overrun_multiple : v.maxsize ≤ i → i % v.maxsize ≡ 0 → Assigned kmalloc v fd i none
  overrun_refused :
      v.maxsize ≤ i
      → i % v.maxsize ≢ 0
      → kmalloc (room_for v i) ≡ false
      → Assigned kmalloc v fd i none

module _ {kmalloc : ℕ → Bool} (limit : HeapLimit kmalloc) {v : Vector} (fd : FileDescriptor)
    (h : IsValid v) (open' : fd.node ≢ 0) (i : ℕ) (lt : i < 100000000) where
  set_past : v.maxsize ≤ i → Assigned kmalloc v fd i (set_fd kmalloc v fd (pos i))
  unfolding set_fd
  set_past le = elim (ℕ_discrete (i % v.maxsize) 0) [
    | yes e ↦
        (let (w, run, short) = Returns-elim (reserve-multiple limit h i lt le e) in
          rw (le→leb v.maxsize i le, run, put_at-faults w fd i short) (overrun_multiple le e))
    | no rest ↦ elim (Bool-cases (kmalloc (room_for v i))) [
      | inl granted ↦
          (let (w, run, g) = reserve-Grown limit h i lt le rest granted in
            let (v', put, p) =
              put_at-Placed {fd = fd} i g.valid open'
                (omega (arith, multiple_above i v.maxsize h.room rest, g.maxsize)) in
            rw (le→leb v.maxsize i le, run, put) (grown le rest granted (Placed-Grown h g p)))
      | inr refused ↦
          rw
            (
              le→leb v.maxsize i le,
              reserve-refused limit h i lt le rest refused,
              put_at-faults v fd i (omega (arith, h.storage)),
            )
            (overrun_refused le rest refused)
    ]
  ]

  -- `vector_set` at a descriptor from 0 to 99999999 of a valid vector: below the capacity it writes
  -- the entry and changes no other; past it, it grows the vector first and does the same; but at a
  -- multiple of the capacity, and where the heap refuses the larger block, it writes past the
  -- block.
  pub set_fd-Assigned : Assigned kmalloc v fd i (set_fd kmalloc v fd (pos i))
  unfolding set_fd
  set_fd-Assigned = elim (dec_lt i v.maxsize) [
    | yes low ↦
        (let (v', put, p) = put_at-Placed {fd = fd} i h open' low in
          rw (lt→leb v.maxsize i low, put) (within low p))
    | no high ↦ set_past (omega arith)
  ]

-- What `vector_add_from` does where it need not grow: the lowest descriptor from `from` on that is
-- not open, or as `vector_push`.
pub data AddedFrom (kmalloc : ℕ → Bool) (v : Vector) (fd : FileDescriptor) (from : ℕ)
    : ℤ × Vector → Type 0 where
  found :
      {v' : Vector} (i : ℕ)
      → from ≤ i
      → slot v i ≡ none
      → ((j : ℕ) → from ≤ j → j < i → slot v j ≢ none)
      → Placed v fd i v'
      → AddedFrom kmalloc v fd from (pos i, v')
  appended :
      {out : ℤ × Vector}
      → ((j : ℕ) → from ≤ j → j < v.maxsize → slot v j ≢ none)
      → Pushed kmalloc v fd out
      → AddedFrom kmalloc v fd from out

module _ {kmalloc : ℕ → Bool} (limit : HeapLimit kmalloc) {v : Vector} (fd : FileDescriptor)
    (h : IsValid v) (open' : fd.node ≢ 0) (from : ℕ) where
  look_from :
      (r : Option (Option ℕ))
      → from ≤ v.maxsize
      → find_free v.buffer from (v.maxsize - from) ≡ r
      → Search v.buffer from (v.maxsize - from) r
      → Returns (AddedFrom kmalloc v fd from) (add_from kmalloc v fd (pos from))
  unfolding add_from
  look_from r le e (all_open busy) =
      rw (le→ltb v.maxsize from le, e)
        (Returns-mono (push-Pushed limit h open')
          λ out p. appended (λ j lo hi. rw (slot-eq-entry j h) (busy j lo (omega arith))) p)
  look_from r le e (first_free k lo hi free before) =
      let (v', put, p) = put_at-Placed {fd = fd} k h open' (omega arith) in
      rw (le→ltb v.maxsize from le, e, put)
        (returns (
          found k lo (rw (slot-eq-entry k h) free) (λ j a b. rw (slot-eq-entry j h) (before j a b))
            p))

  -- `vector_add_from` on a valid vector with `from` within the capacity never faults: it opens the
  -- file at the lowest descriptor from `from` on that is not open and changes no other; where there
  -- is none in the capacity it does what `vector_push` does, which appends or returns -1.
  pub add_from-AddedFrom :
      from ≤ v.maxsize → Returns (AddedFrom kmalloc v fd from) (add_from kmalloc v fd (pos from))
  add_from-AddedFrom le =
      look_from _ le refl
        (find_free-Search v.buffer from (v.maxsize - from) (omega (arith, h.storage)))
