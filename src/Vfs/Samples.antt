-- ===== src/Vfs/Samples.antt =====
-- A small file system: a root directory that holds `etc`, with the file `a`, and `tmp`.
use yanix.Common.{
  ◌<◌, ◌≡◌, ◌≢◌, refl, inl, inr, ◌⊎◌, false, Option, none, some, [], ◌∷◌, arith, ◌==◌,
  if◌then◌else◌, length, Bool-cases,
}
use yanix.Vfs.{Ptr, String, Node, State}
use yanix.Vfs.Lookup.{same_name}
use yanix.Vfs.Lookup.Names.{Names, Entries, entry, Linked}
use yanix.Vfs.Lookup.Refines.{Graph, Represents}
use yanix.Vfs.Link.Lists.{Off}
use yanix.Vfs.Link.Implements.{Linkable}

abbrev pub etc : String
etc = 101 ∷ 116 ∷ 99 ∷ []

abbrev pub tmp : String
tmp = 116 ∷ 109 ∷ 112 ∷ []

abbrev pub a_node : String → (nextnode dirlist : Ptr) → Node
a_node name nextnode dirlist = record {
  name = name;
  type = 2;
  uid = 0;
  gid = 0;
  id = 0;
  filelength = 0;
  fs_info = none;
  nlink = 1;
  read = false;
  write = false;
  close = false;
  nextnode = nextnode;
  dirlist = dirlist;
  parent = 10;
}

-- The node at 50 is new, and named `b`.
abbrev pub nodes : Ptr → Option Node
nodes p =
    if p == 10
    then some (a_node [] 0 20)
    else if p == 20
    then some (a_node etc 30 40)
    else if p == 30
    then some (a_node tmp 0 0)
    else if p == 40
    then some (a_node (97 ∷ []) 0 0)
    else if p == 50
    then some (a_node (98 ∷ []) 0 0)
    else none

abbrev pub graph : Graph
graph p = if p == 10 then (etc, 20) ∷ (tmp, 30) ∷ [] else if p == 20 then (97 ∷ [], 40) ∷ [] else []

abbrev pub small : State
small = record {
  node = nodes;
  root = 10;
  cwd = 47 ∷ etc;
  files = record { current = none; errno = 0 };
}

pub data Live : Ptr → Type 0 where
  live_root : Live 10
  live_etc : Live 20
  live_tmp : Live 30
  live_a : Live 40

pub entry-one :
    (m name : String) (p q : Ptr) (es : Entries)
    → entry m ((name, p) ∷ es) ≡ some q
    → (q ≡ p) ⊎ (entry m es ≡ some q)
entry-one m name p q es h = elim (Bool-cases (same_name m name)) [
  | inl same ↦ inl (ground (arith, same, h))
  | inr other ↦ inr (rw other at h)
]

pub etc-Linked : Linked nodes 40 ((97 ∷ [], 40) ∷ [])
etc-Linked = (refl, omega arith, a_node (97 ∷ []) 0 0, refl, refl, refl)

pub root-Linked : Linked nodes 20 (graph 10)
root-Linked = (
  refl,
  omega arith,
  a_node etc 30 40,
  refl,
  refl,
  (refl, omega arith, a_node tmp 0 0, refl, refl, refl),
)

pub small-dirs :
    (p : Ptr)
    → Live p
    → (p ≢ 0)
      × (n : Node) × (nodes p ≡ some n)
      × Linked nodes n.dirlist (graph p)
      × (length (graph p) < 4)
small-dirs p live_root = (omega arith, a_node [] 0 20, refl, root-Linked, omega arith)
small-dirs p live_etc = (omega arith, a_node etc 30 40, refl, etc-Linked, omega arith)
small-dirs p live_tmp = (omega arith, a_node tmp 0 0, refl, refl, omega arith)
small-dirs p live_a = (omega arith, a_node (97 ∷ []) 0 0, refl, refl, omega arith)

pub small-closed : (p : Ptr) → Live p → (m : String) (q : Ptr) → entry m (graph p) ≡ some q → Live q
small-closed p live_root m q h = elim (entry-one m etc 20 q ((tmp, 30) ∷ []) h) [
  | inl here ↦ rw here live_etc
  | inr rest ↦ elim (entry-one m tmp 30 q [] rest) [
    | inl here ↦ rw here live_tmp
    | inr none_left ↦ absurd (ground (arith, none_left))
  ]
]
small-closed p live_etc m q h = elim (entry-one m (97 ∷ []) 40 q [] h) [
  | inl here ↦ rw here live_a
  | inr none_left ↦ absurd (ground (arith, none_left))
]
small-closed p live_tmp m q h = absurd (ground (arith, h))
small-closed p live_a m q h = absurd (ground (arith, h))

pub small-Represents : Represents 4 Live graph small
small-Represents = record { root = live_root; dirs = small-dirs; closed = small-closed }

pub etc-Names : Names (etc ∷ [])
etc-Names = ((omega arith, (omega arith, (omega arith, tt))), tt)

pub new-fresh : (q : Ptr) → Live q → (50 ≢ q) × Off 50 (graph q)
new-fresh q live_root = (omega arith, (omega arith, (omega arith, tt)))
new-fresh q live_etc = (omega arith, (omega arith, tt))
new-fresh q live_tmp = (omega arith, tt)
new-fresh q live_a = (omega arith, tt)

pub a-apart : (q : Ptr) → Live q → q ≢ 20 → Off 40 (graph q)
a-apart q live_root ne = (omega arith, (omega arith, tt))
a-apart q live_etc ne = absurd (ne refl)
a-apart q live_tmp ne = tt
a-apart q live_a ne = tt

pub new-Linkable : Linkable 4 Live graph small 20 (97 ∷ []) 40 [] (98 ∷ []) 50
new-Linkable = record {
  dir_live = live_etc;
  entries = refl;
  distinct = (tt, tt);
  some_node = omega arith;
  node = (a_node (98 ∷ []) 0 0, refl, refl, refl, refl);
  fresh = new-fresh;
  apart = a-apart;
  room = omega arith;
}

-- "/etc/b".
abbrev pub new_path : String
new_path = 47 ∷ 101 ∷ 116 ∷ 99 ∷ 47 ∷ 98 ∷ []
