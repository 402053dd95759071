-- ===== src/Vfs/Link.antt =====
-- kernel/fs/vfs/vfs.c: `vfs_link_node_vfs`, which puts a node into a directory.
pub mod Place
pub mod Lists
pub mod Implements
pub mod RoundTrip
pub mod Fails
use yanix.Common.{
  ℕ, zero, suc, ◌+◌, ◌-◌, ◌*◌, ◌%◌, ◌/◌, Bool, true, false, not, ◌&&◌, ◌||◌, Option, none, some,
  List, [], ◌∷◌, ◌++◌, ◌==◌, if◌then◌else◌, length, get_elem?, take,
}
use yanix.Common.Int.{ℤ, pos, negsuc}
use yanix.Vfs.{
  Ptr, null, String, Node, Filesystem, State, Cmd, pure, ◌>>=◌, ◌>>◌, fault, load, update,
}
use yanix.Vfs.Lookup.{slash, vfs_find_path}

abbrev pub is_slash : Option ℕ → Bool
is_slash none = false
is_slash (some c) = c == slash

-- The last index from `n` down to 1 with a slash.
abbrev pub last_slash : String → (n : ℕ) → Option ℕ
last_slash tmp zero = none
last_slash tmp (suc n) = if is_slash (get_elem? tmp (suc n)) then some (suc n) else last_slash tmp n

-- The walk `while (ntmp->nextnode) ntmp = ntmp->nextnode;`.
pub last_node : (fuel : ℕ) → (ntmp : Ptr) → Cmd Ptr
last_node zero ntmp = fault
last_node (suc fuel) ntmp = do
  n ← load ntmp
  if n.nextnode == null then pure ntmp else last_node fuel n.nextnode

-- The copy of the path, and the length that is searched. The block has no room for the zero, so
-- that `beyond`, the byte behind it, is read as one of the string. The empty path reads the byte
-- before it, and faults here.
abbrev pub cut_copy : (path : String) (beyond : ℕ) → Option (String × ℕ)
cut_copy [] beyond = none
cut_copy (c ∷ cs) beyond =
    if is_slash (get_elem? (c ∷ cs) (length cs))
    then some (take (length cs) (c ∷ cs) ++ 0 ∷ beyond ∷ [], length cs)
    else some ((c ∷ cs) ++ beyond ∷ [], suc (length cs))

abbrev pub or_fault : {A : Type 0} → Option A → Cmd A
or_fault none s = none
or_fault (some a) s = some (a, s)

-- The node goes to the end of the directory's list, which must have a node.
unfoldable pub link_into : (fuel : ℕ) → (dir node : Ptr) → Cmd (Unit {0})
link_into fuel dir node = do
  update node (λ n. record n { parent = dir })
  d ← load dir
  last ← last_node fuel d.dirlist
  update last (λ n. record n { nextnode = node })

unfoldable pub vfs_link_node_vfs : (fuel : ℕ) → (path : String) (beyond : ℕ) (node : Ptr) → Cmd ℤ
vfs_link_node_vfs fuel path beyond node = do
  (tmp, pathlen) ← or_fault (cut_copy path beyond)
  dir ← elim (last_slash tmp pathlen) [
    | none ↦ pure null
    | some i ↦ vfs_find_path fuel (take i tmp)
  ]
  if dir == null then pure (negsuc 0) else (do link_into fuel dir node; pure (pos 0))
