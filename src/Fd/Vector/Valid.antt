-- ===== src/Fd/Vector/Valid.antt =====
-- The invariant of `vector_t`, the view of it as a partial map, and the search for a free entry.
use yanix.Common.{
  ℕ, zero, suc, ◌+◌, ◌≤◌, ◌<◌, ◌≡◌, ◌≢◌, inl, inr, Option, none, some, List, arith, ◌==◌, ltb,
  if◌then◌else◌, length, get_elem?, get_elem?-within, Bool-cases,
}
use native.Mathlib.Decide.{ℕ_discrete}
use yanix.Fd.Vector.{FileDescriptor, Vector, find_free}

-- An entry counts as open where it has a node.
abbrev pub occupied : Option FileDescriptor → Option FileDescriptor
occupied none = none
occupied (some e) = if e.node == 0 then none else some e

abbrev pub entry : List FileDescriptor → ℕ → Option FileDescriptor
entry buffer i = occupied (get_elem? buffer i)

-- The map that the vector stands for: descriptor to open file.
abbrev pub slot : Vector → ℕ → Option FileDescriptor
slot v i = if ltb i v.size then entry v.buffer i else none

-- KHEAP_MAXSIZE over the size of an entry: no larger block comes out of the kernel heap.
abbrev pub max_entries : ℕ
max_entries = 838860

pub record IsValid (v : Vector) : Type 0 where
  pub storage : length v.buffer ≡ v.maxsize
  pub room : 0 < v.maxsize
  pub small : v.maxsize ≤ max_entries
  pub used : v.size ≤ v.maxsize
  pub unused : (i : ℕ) → v.size ≤ i → entry v.buffer i ≡ none

-- Past the size a valid vector has no open entry, so the bound in `slot` can be left off.
pub slot-eq-entry : {v : Vector} (i : ℕ) → IsValid v → slot v i ≡ entry v.buffer i
slot-eq-entry i h = ground (arith, h.unused i)

-- What the search over the `n` indices from `i` on comes back with.
pub data Search (buffer : List FileDescriptor) (i n : ℕ) : Option (Option ℕ) → Type 0 where
  all_open : ((j : ℕ) → i ≤ j → j < i + n → entry buffer j ≢ none) → Search buffer i n (some none)
  first_free :
      (k : ℕ)
      → i ≤ k
      → k < i + n
      → entry buffer k ≡ none
      → ((j : ℕ) → i ≤ j → j < k → entry buffer j ≢ none)
      → Search buffer i n (some (some k))

-- The search from the next index on, after an open entry.
open_cons :
    (buffer : List FileDescriptor) (i n : ℕ) {r : Option (Option ℕ)}
    → entry buffer i ≢ none
    → Search buffer (i + 1) n r
    → Search buffer i (suc n) r
open_cons buffer i n here (all_open rest) = all_open λ j p q. elim (ℕ_discrete i j) [
  | yes e ↦ rw (← e) here
  | no ne ↦ rest j (omega arith) (omega arith)
]
open_cons buffer i n here (first_free k p q free before) =
    first_free k (omega arith) (omega arith) free λ j p q. elim (ℕ_discrete i j) [
      | yes e ↦ rw (← e) here
      | no ne ↦ before j (omega arith) (omega arith)
    ]

-- The search within the buffer comes back with the first entry without a node, or finds all of them
-- taken.
pub find_free-Search :
    (buffer : List FileDescriptor) (i n : ℕ)
    → i + n ≤ length buffer
    → Search buffer i n (find_free buffer i n)
unfolding find_free
find_free-Search buffer i zero h = all_open (λ j p q. absurd (omega arith))
find_free-Search buffer i (suc n) h =
    let (e, at) = get_elem?-within buffer i (omega arith) in
    let rest = find_free-Search buffer (i + 1) n (omega arith) in
    rw at (elim (Bool-cases (e.node == 0)) [
      | inl free ↦
          rw free (
            first_free i (omega arith) (omega arith) (rw (at, free))
              (λ j p q. absurd (omega arith)))
      | inr open' ↦ rw open' (open_cons buffer i n (rw (at, open') (λ h. cc)) rest)
    ])
