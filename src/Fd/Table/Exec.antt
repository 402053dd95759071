-- ===== src/Fd/Table/Exec.antt =====
-- `check_filedescriptors`, which an exec runs: it closes the descriptors marked close-on-exec.
use yanix.Common.{
  ℕ, zero, suc, ◌+◌, ◌<◌, ◌≡◌, refl, inl, inr, Option, none, some, arith, ◌==◌, leb, if◌then◌else◌,
  get_elem?-within, Bool-cases,
}
use yanix.Fd.Vector.{FileDescriptor, Vector, get}
use yanix.Fd.Vector.Valid.{IsValid, slot}
use yanix.Fd.Table.{close_on_exec, check_from, check_filedescriptors, cloexec}
use yanix.Fd.Table.Close.{task, close-Closed}

-- What is left of an open file after an exec.
abbrev pub kept : Option FileDescriptor → Option FileDescriptor
kept none = none
kept (some e) = if cloexec e then none else some e

record Passed (v : Vector) (i : ℕ) (v' : Vector) : Type 0 where
  valid : IsValid v'
  size : v'.size ≡ v.size
  slots : (j : ℕ) → slot v' j ≡ (if i == j then kept (slot v j) else slot v j)

close_on_exec-Passed :
    {v : Vector} (i errno : ℕ)
    → IsValid v
    → i < v.size
    → (v' : Vector) × (close_on_exec i (task v errno) ≡ some (task v' errno)) × Passed v i v'
unfolding close_on_exec get
close_on_exec-Passed {v} i errno h lt =
    let (e, at) = get_elem?-within v.buffer i (omega (arith, h.used, h.storage)) in
    let (w, run, c) = close-Closed i errno h in
    elim (Bool-cases (cloexec e)) [
      | inl marked ↦ (
        w,
        ground (arith, run),
        record { valid = c.valid; size = c.size; slots = λ j. ground (arith, c.slots j) },
      )
      | inr plain ↦ (v, ground arith, record { valid = h; size = refl; slots = λ j. ground arith })
    ]

check_from-kept :
    (n : ℕ) {v : Vector} (i errno : ℕ)
    → IsValid v
    → i + n ≡ v.size
    → (v' : Vector) × (check_from i n (task v errno) ≡ some (task v' errno))
      × IsValid v'
      × ((j : ℕ) → slot v' j ≡ (if leb i j then kept (slot v j) else slot v j))
unfolding check_from
check_from-kept zero {v} i errno h e = (v, refl, h, λ j. ground arith)
check_from-kept (suc n) {v} i errno h e =
    let (w, run, p) = close_on_exec-Passed i errno h (omega arith) in
    let (v', run', valid, slots) =
      check_from-kept n (i + 1) errno p.valid (omega (arith, p.size)) in
    (v', rw (run, run'), valid, λ j. ground (arith, slots j, p.slots j))

-- `check_filedescriptors` on a valid vector never faults; it closes exactly the open descriptors
-- that carry E_CLOEXEC, and keeps the vector valid.
pub check-kept :
    {v : Vector} (errno : ℕ)
    → IsValid v
    → (v' : Vector) × (check_filedescriptors (task v errno) ≡ some (task v' errno))
      × IsValid v'
      × ((j : ℕ) → slot v' j ≡ kept (slot v j))
unfolding check_filedescriptors
check-kept {v} errno h =
    let (v', run, valid, slots) = check_from-kept v.size 0 errno h (omega arith) in
    (v', run, valid, λ j. ground (arith, slots j))
