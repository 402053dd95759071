-- ===== src/Fd/Table/Close.antt =====
-- `close_filedescriptor` against the map of open files.
use yanix.Common.{
  ℕ, ◌≤◌, ◌<◌, ◌≡◌, ◌≢◌, refl, ◌∙◌, none, some, arith, ◌==◌, if◌then◌else◌, length-set, get_elem?,
  get_elem?-within, set, get_elem?-set_ne,
}
use native.Mathlib.Decide.{dec_lt}
use yanix.Common.Int.{pos}
use yanix.Fd.Vector.{FileDescriptor, Vector, get, clear}
use yanix.Fd.Vector.Valid.{IsValid, slot, slot-eq-entry}
use yanix.Fd.Vector.Lemmas.{entry-set}
use yanix.Fd.Table.{Files, close_filedescriptor}

-- `v'` is `v` with descriptor `fd` closed, and every other descriptor as it was.
pub record Closed (v : Vector) (fd : ℕ) (v' : Vector) : Type 0 where
  pub valid : IsValid v'
  pub slots : (j : ℕ) → slot v' j ≡ (if fd == j then none else slot v j)
  pub size : v'.size ≡ v.size
  pub maxsize : v'.maxsize ≡ v.maxsize
  pub others : (j : ℕ) → fd ≢ j → get_elem? v'.buffer j ≡ get_elem? v.buffer j

-- The state of a task with the vector `v`.
abbrev pub task : Vector → ℕ → Files
task v errno = record { current = some v; errno = errno }

-- An entry without a node closes the descriptor that it is written to.
pub store-Closed :
    {v : Vector} (fd : ℕ) (e : FileDescriptor)
    → IsValid v
    → fd < v.size
    → e.node ≡ 0
    → Closed v fd (record v { buffer = set v.buffer fd e })
store-Closed {v} fd e h lt null =
    let stored = λ (j : ℕ). entry-set v.buffer fd j e (omega (arith, h.used, h.storage)) in
    record {
      valid = record {
        storage = omega (arith, length-set v.buffer fd e, h.storage);
        room = h.room;
        small = h.small;
        used = h.used;
        unused = λ j p. ground (arith, stored j, h.unused j p);
      };
      slots = λ j. ground (arith, stored j, slot-eq-entry j h);
      size = refl;
      maxsize = refl;
      others = λ j p. get_elem?-set_ne v.buffer fd j e p;
    }

clear-Closed :
    {v : Vector} (fd : ℕ)
    → IsValid v
    → fd < v.size
    → (v' : Vector) × (clear v fd ≡ some v') × Closed v fd v'
unfolding clear
clear-Closed {v} fd h lt =
    let (e, at) = get_elem?-within v.buffer fd (omega (arith, h.used, h.storage)) in
    (
      record v { buffer = set v.buffer fd (record e { node = 0 }) },
      rw at,
      store-Closed fd (record e { node = 0 }) h lt refl,
    )

-- Closing twice is closing once.
pub Closed-Closed : {u v w : Vector} {fd : ℕ} → Closed u fd v → Closed v fd w → Closed u fd w
Closed-Closed {u} {v} {w} c d = record {
  valid = d.valid;
  slots = λ j. ground (arith, d.slots j, c.slots j);
  size = d.size ∙ c.size;
  maxsize = d.maxsize ∙ c.maxsize;
  others = λ j p. d.others j p ∙ c.others j p;
}

-- A descriptor that is not below the size is closed already.
Closed-beyond : {v : Vector} (fd : ℕ) → IsValid v → v.size ≤ fd → Closed v fd v
Closed-beyond fd h le = record {
  valid = h;
  slots = λ j. ground (arith, h.unused j);
  size = refl;
  maxsize = refl;
  others = λ j p. refl;
}

-- `close_filedescriptor` on a valid vector never faults; it closes the descriptor and no other.
pub close-Closed :
    {v : Vector} (fd errno : ℕ)
    → IsValid v
    → (v' : Vector) × (close_filedescriptor (pos fd) (task v errno) ≡ some (task v' errno))
      × Closed v fd v'
unfolding close_filedescriptor get
close-Closed {v} fd errno h = elim (dec_lt fd v.size) [
  | yes lt ↦ (let (v', run, c) = clear-Closed fd h lt in (v', ground (arith, run), c))
  | no ge ↦ (v, ground arith, Closed-beyond fd h (omega arith))
]
