-- ===== src/Vfs/Lookup.antt =====
-- kernel/fs/vfs/vfs.c: `_vfs_path_find` and `vfs_find_path`, from a path to a node.
pub mod Names
pub mod Refines
use yanix.Common.{
  ℕ, zero, suc, Bool, true, false, ◌&&◌, Option, none, some, List, [], ◌∷◌, ◌++◌, ◌==◌,
  if◌then◌else◌,
}
use yanix.Vfs.{Ptr, null, String, Node, State, Cmd, pure, ◌>>=◌, ◌>>◌, fault, load, set_errno}

-- ENOENT of errno.h.
abbrev pub enoent : ℕ
enoent = 2

-- '/'.
abbrev pub slash : ℕ
slash = 47

-- Whether `strcmp` of the two strings is 0.
unfoldable pub same_name : String → String → Bool
same_name [] [] = true
same_name [] (y ∷ ys) = false
same_name (x ∷ xs) [] = false
same_name (x ∷ xs) (y ∷ ys) = (x == y) && same_name xs ys

-- The loop of `_vfs_path_find` over the list from `tmp` on.
pub find_node : (fuel : ℕ) → (name : String) (tmp : Ptr) → Cmd Ptr
find_node zero name tmp = fault
find_node (suc fuel) name tmp = if tmp == null then (do set_errno enoent; pure null) else (do
  n ← load tmp
  if same_name name n.name then pure tmp else find_node fuel name n.nextnode)

unfoldable pub path_find : (fuel : ℕ) → (node : Ptr) (name : String) → Cmd Ptr
path_find fuel node name = do n ← load node; find_node fuel name n.dirlist

-- The loop of `vfs_find_path` over the characters after the first one; `buffer` holds those since
-- the last slash.
pub walk : (fuel : ℕ) → (node : Ptr) (buffer path : String) → Cmd Ptr
walk fuel node buffer [] = path_find fuel node buffer
walk fuel node buffer (c ∷ path) =
    if c == slash
    then (do
      next ← path_find fuel node buffer
      if next == null then pure null else walk fuel next [] path)
    else walk fuel node (buffer ++ c ∷ []) path

-- The part of `vfs_find_path` behind its first test. The first character is skipped, whichever it
-- is; there is none in the empty path.
unfoldable pub find_from_root : (fuel : ℕ) → String → Cmd Ptr
find_from_root fuel path = do
  root ← (λ s. some (s.root, s))
  if root == null
      then pure null
      else elim path [ [] ↦ (do set_errno enoent; pure null) | c ∷ rest ↦ walk fuel root [] rest ]

-- `calls` bounds the nesting of `vfs_find_path` in itself: a second call is relative only where the
-- working directory is.
pub find_path : (fuel calls : ℕ) → String → Cmd Ptr
find_path fuel zero path = fault
find_path fuel (suc calls) [] = do
  cwd ← (λ s. some (s.cwd, s))
  node ← find_path fuel calls (cwd ++ slash ∷ [])
  if node == null then find_from_root fuel [] else pure node
find_path fuel (suc calls) (c ∷ path) =
    if c == slash
    then elim path [ [] ↦ (λ s. some (s.root, s)) | d ∷ rest ↦ find_from_root fuel (c ∷ d ∷ rest) ]
    else (do
      cwd ← (λ s. some (s.cwd, s))
      node ← find_path fuel calls (cwd ++ slash ∷ c ∷ path)
      if node == null then find_from_root fuel (c ∷ path) else pure node)

unfoldable pub vfs_find_path : (fuel : ℕ) → String → Cmd Ptr
vfs_find_path fuel path = find_path fuel 2 path
