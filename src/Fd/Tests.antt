-- ===== src/Fd/Tests.antt =====
-- Runs of kernel/yanix/ds/fd_vector.c and kernel/fs/filedescriptor.c on a small table of open files.
use yanix.Common.{ℕ, zero, suc, ◌≤◌, ◌≡◌, refl, Bool, none, [], ◌∷◌, arith, leb, Returns}
use yanix.Common.Int.{pos}
use yanix.Fd.Vector.{FileDescriptor, Vector, zeroed, add}
use yanix.Fd.Vector.Valid.{IsValid, entry}
use yanix.Fd.Vector.Grow.{HeapLimit}
use yanix.Fd.Vector.Open.{Added, add-Added}
use yanix.Fd.Table.{dup2_filedescriptor}
use yanix.Fd.Table.Close.{task}
use yanix.Fd.Table.Duplicate.{Duplicated, dup2-Duplicated}

-- A kernel heap that grants each block that fits in it.
abbrev heap : ℕ → Bool
heap n = leb n 16777216

heap-limit : HeapLimit heap
heap-limit n h = ground arith

abbrev file : ℕ → ℕ → FileDescriptor
file node flags = record { node = node; mode = 0; flags = flags; seek = 0; lock_index = 0 }

-- Descriptors 0 and 2 are open, the second of them close-on-exec.
abbrev table : Vector
table = record { buffer = file 100 0 ∷ zeroed ∷ file 300 1 ∷ zeroed ∷ []; size = 3; maxsize = 4 }

table-unused : (i : ℕ) → 3 ≤ i → entry table.buffer i ≡ none
table-unused zero h = absurd (omega arith)
table-unused (suc zero) h = absurd (omega arith)
table-unused (suc (suc zero)) h = absurd (omega arith)
table-unused (suc (suc (suc zero))) h = refl
table-unused (suc (suc (suc (suc i)))) h = refl

table-IsValid : IsValid table
table-IsValid = record {
  storage = refl;
  room = omega arith;
  small = omega arith;
  used = omega arith;
  unused = table-unused;
}

add-Added_example : Returns (Added heap table (file 200 0)) (add heap table (file 200 0))
add-Added_example = add-Added heap-limit table-IsValid (omega arith)

dup2-Duplicated_example :
    Duplicated heap table (file 100 0) 5 0 (dup2_filedescriptor heap (pos 0) (pos 5) (task table 0))
dup2-Duplicated_example =
    dup2-Duplicated 0 5 0 heap-limit table-IsValid refl (omega arith) (omega arith)
