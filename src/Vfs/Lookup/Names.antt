-- ===== src/Vfs/Lookup/Names.antt =====
-- Paths as names between slashes, and the names of a directory.
use yanix.Common.{
  ℕ, zero, suc, ◌<◌, ◌≡◌, ◌≢◌, refl, inl, inr, Option, none, some, List, [], ◌∷◌, ◌++◌, arith,
  if◌then◌else◌, length, Bool-cases, ne→==, eq→==,
}
use yanix.Vfs.{Ptr, String, Node, State, load}
use yanix.Vfs.Lookup.{slash, enoent, same_name, find_node}

-- The path with the names, each after a slash.
abbrev pub join : List String → String
join [] = []
join (n ∷ ns) = slash ∷ n ++ join ns

-- A name has no slash.
abbrev pub NoSlash : String → Type 0
NoSlash [] = Unit {0}
NoSlash (c ∷ cs) = (c ≢ slash) × NoSlash cs

abbrev pub Names : List String → Type 0
Names [] = Unit {0}
Names (n ∷ ns) = NoSlash n × Names ns

-- A directory: its entries' names and nodes, in order.
abbrev pub Entries : Type 0
Entries = List (String × Ptr)

-- The first entry with the name.
abbrev pub entry : String → Entries → Option Ptr
entry name [] = none
entry name ((n, p) ∷ es) = if same_name name n then some p else entry name es

-- The nodes from `p` on, linked by `nextnode`, are the entries.
abbrev pub Linked : (Ptr → Option Node) → Ptr → Entries → Type 0
Linked node p [] = p ≡ 0
Linked node p ((name, q) ∷ es) =
    (p ≡ q) × (q ≢ 0) × (n : Node) × (node q ≡ some n) × (n.name ≡ name) × Linked node n.nextnode es

pub load-ok : (p : Ptr) (n : Node) (s : State) → p ≢ 0 → s.node p ≡ some n → load p s ≡ some (n, s)
unfolding load
load-ok p n s ne at = rw (ne→== p 0 ne, at)

-- The pointer and the state after a lookup that found `r`.
abbrev pub outcome : Option Ptr → State → Ptr × State
outcome none s = (0, record s { files = record s.files { errno = enoent } })
outcome (some p) s = (p, s)

pub find_node-entry :
    (es : Entries) (fuel : ℕ) (name : String) (p : Ptr) (s : State)
    → Linked s.node p es
    → length es < fuel
    → find_node fuel name p s ≡ some (outcome (entry name es) s)
unfolding find_node
find_node-entry es zero name p s h lt = absurd (omega arith)
find_node-entry [] (suc fuel) name p s h lt = rw (eq→== p 0 h) refl
find_node-entry ((name', q) ∷ es) (suc fuel) name p s (e, ne, n, at, called, rest) lt =
    let run = find_node-entry es fuel name n.nextnode s rest (omega arith) in
    elim (Bool-cases (same_name name name')) [
      | inl here ↦ rw (e, ne→== q 0 ne, load-ok q n s ne at, called, here) refl
      | inr other ↦ rw (e, ne→== q 0 ne, load-ok q n s ne at, called, other) run
    ]
