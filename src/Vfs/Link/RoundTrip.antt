-- ===== src/Vfs/Link/RoundTrip.antt =====
-- `vfs_link_node_vfs` by its path, and then `vfs_find_path` of it.
use yanix.Common.{
  ℕ, suc, ◌+◌, ◌≡◌, ◌≢◌, refl, sym, ap, ◌∙◌, Option, none, some, List, [], ◌∷◌, ◌++◌, arith, length,
  ne→==, take,
}
use yanix.Common.Int.{pos}
use mathlib.Core.List.{append-nil}
use yanix.Vfs.{Ptr, String, State}
use yanix.Vfs.Lookup.{slash, vfs_find_path}
use yanix.Vfs.Lookup.Names.{join, NoSlash, Names, Entries, entry, outcome}
use yanix.Vfs.Lookup.Refines.{
  Graph, follow, lookup, Represents, vfs_find_path-lookup, follow_end, join-append, Names-append,
  some_join,
}
use yanix.Vfs.Link.{link_into, vfs_link_node_vfs, last_slash, cut_copy}
use yanix.Vfs.Link.Place.{last_slash-append, cut_copy-name, take-exact}
use yanix.Vfs.Link.Lists.{entry-new}
use yanix.Vfs.Link.Implements.{
  linked, Linkable, with_node, link_into-Inserted, Also, linked_dir, link_into-Represents,
  follow-linked,
}

link-steps :
    (fuel : ℕ) (path tmp : String) (beyond len i : ℕ) (dir p : Ptr) (s s' : State)
    → cut_copy path beyond ≡ some (tmp, len)
    → last_slash tmp len ≡ some i
    → vfs_find_path fuel (take i tmp) s ≡ some (dir, s)
    → dir ≢ 0
    → link_into fuel dir p s ≡ some (tt, s')
    → vfs_link_node_vfs fuel path beyond p s ≡ some (pos 0, s')
unfolding vfs_link_node_vfs
link-steps fuel path tmp beyond len i dir p s s' copy at found ne done =
    rw (copy, at, found, ne→== dir 0 ne, done) refl

-- `vfs_link_node_vfs` of a new node, by an absolute path without a slash at its end, in a tree that
-- represents a naming graph. All but the last name of the path lead to a directory; they are not
-- the one empty name of the root, into which the code links nothing, and the directory has a node
-- already, no node twice, and a last node that is in no other directory. The new node is in no
-- directory, has no entries and no next node, and its name is the last name of the path. The fuel
-- is more than the entries that the directory then has, and the byte behind the copy of the path is
-- no slash. Then the call never faults: it returns 0, the root stays, and the tree represents the
-- graph with the node as an entry more at the end of that directory.
pub vfs_link_node_vfs-Represents :
    (fuel : ℕ) (live : Ptr → Type 0) (g : Graph) (s : State) (n : String) (ns : List String) (x : ℕ)
    (name : String) (beyond : ℕ) (dir : Ptr) (k : String) (a : Ptr) (es : Entries) (p : Ptr)
    → Represents fuel live g s
    → Linkable fuel live g s dir k a es (x ∷ name) p
    → Names (n ∷ ns)
    → n ++ join ns ≢ []
    → NoSlash (x ∷ name)
    → lookup g s.root (n ∷ ns) ≡ some dir
    → beyond ≢ slash
    → (s' : State) × (vfs_link_node_vfs fuel (join (n ∷ ns) ++ slash ∷ x ∷ name) beyond p s
        ≡ some (pos 0, s'))
      × Represents fuel (Also live p) (linked g dir (x ∷ name) p) s'
      × (s'.root ≡ s.root)
vfs_link_node_vfs-Represents fuel live g s n ns x name beyond dir k a es p r h names some_dir clear
      there ne =
    let d = n ++ join ns in
    let tail = slash ∷ (x ∷ name ++ beyond ∷ []) in
    let cut : take (suc (length d)) ((slash ∷ d) ++ tail) ≡ slash ∷ d =
      take-exact (slash ∷ d) tail in
    let found =
      vfs_find_path-lookup fuel live g s r n ns names some_dir
      ∙ ap (λ o. some (outcome o s)) there in
    let (c, run, into) = link_into-Inserted fuel live g s dir k a es (x ∷ name) p r h in
    (
      with_node s c,
      link-steps fuel (join (n ∷ ns) ++ slash ∷ x ∷ name) ((slash ∷ d) ++ tail) beyond
          (suc (length d) + suc (suc (length name))) (suc (length d)) dir p s (with_node s c)
          (cut_copy-name slash d name x beyond clear)
          (last_slash-append slash d (x ∷ name) beyond clear ne) (rw cut found)
          (r.dirs dir h.dir_live).0 run,
      link_into-Represents fuel live g s dir k a es (x ∷ name) p r h c into,
      refl,
    )

follow-append :
    (ns : List String) (g : Graph) (m : String) (o : Option Ptr) (q : Ptr)
    → follow g o ns ≡ some q
    → follow g o (ns ++ m ∷ []) ≡ entry m (g q)
follow-append ns g m none q h = absurd (ground (arith, h))
follow-append [] g m (some p) q h =
    let e : p ≡ q = ground (arith, h) in follow_end g (entry m (g p)) ∙ ap (λ z. entry m (g z)) e
follow-append (n ∷ ns) g m (some p) q h = follow-append ns g m (entry n (g p)) q h

-- `vfs_find_path` after `vfs_link_node_vfs`, by one absolute path without a slash at its end, in a
-- tree that represents a naming graph. All but the last name of the path lead to a directory; they
-- are not the one empty name of the root, and the directory has a node already, no node twice, a
-- last node that is in no other directory, and no entry with the last name of the path. The new
-- node is in no directory, has no entries and no next node, and its name is the last name of the
-- path. The fuel is more than the entries that the directory then has, and the byte behind the copy
-- of the path is no slash. Then the link returns 0, and the lookup after it finds the node and
-- changes nothing.
pub vfs_find_path-link :
    (fuel : ℕ) (live : Ptr → Type 0) (g : Graph) (s : State) (n : String) (ns : List String) (x : ℕ)
    (name : String) (beyond : ℕ) (dir : Ptr) (k : String) (a : Ptr) (es : Entries) (p : Ptr)
    → Represents fuel live g s
    → Linkable fuel live g s dir k a es (x ∷ name) p
    → Names (n ∷ ns)
    → n ++ join ns ≢ []
    → NoSlash (x ∷ name)
    → lookup g s.root (n ∷ ns) ≡ some dir
    → beyond ≢ slash
    → entry (x ∷ name) (g dir) ≡ none
    → (s' : State) × (vfs_link_node_vfs fuel (join (n ∷ ns) ++ slash ∷ x ∷ name) beyond p s
        ≡ some (pos 0, s'))
      × (vfs_find_path fuel (join (n ∷ ns) ++ slash ∷ x ∷ name) s' ≡ some (p, s'))
vfs_find_path-link fuel live g s n ns x name beyond dir k a es p r h names some_dir clear there ne
      free =
    let (s', run, r', root) =
      vfs_link_node_vfs-Represents fuel live g s n ns x name beyond dir k a es p r h names some_dir
        clear there ne in
    let g' = linked g dir (x ∷ name) p in
    let ns' = ns ++ (x ∷ name) ∷ [] in
    let same : join (n ∷ ns) ++ slash ∷ x ∷ name ≡ join (n ∷ ns') = sym (
      join-append (n ∷ ns) ((x ∷ name) ∷ [])
      ∙ ap (λ z. join (n ∷ ns) ++ slash ∷ z) (append-nil (x ∷ name))) in
    let fresh = λ (q : Ptr) (lives : live q). (h.fresh q lives).0 in
    let kept =
      follow-linked (n ∷ ns) g dir (x ∷ name) p s.root dir live fresh r.closed r.root there in
    let leads : lookup g' s.root (n ∷ ns') ≡ some p =
      follow-append (n ∷ ns) g' (x ∷ name) (some s.root) dir kept
      ∙ ap (entry (x ∷ name)) (linked_dir g dir (x ∷ name) p)
      ∙ entry-new (g dir) (x ∷ name) p free in
    let find =
      vfs_find_path-lookup fuel (Also live p) g' s' r' n ns'
        (names.0, Names-append ns ((x ∷ name) ∷ []) names.1 (clear, tt))
        (some_join n ns [] (x ∷ name)) in
    let at_root : lookup g' s'.root (n ∷ ns') ≡ some p =
      ap (λ z. lookup g' z (n ∷ ns')) root ∙ leads in
    (s', run, rw same (find ∙ ap (λ o. some (outcome o s')) at_root))
