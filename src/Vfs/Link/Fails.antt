-- ===== src/Vfs/Link/Fails.antt =====
-- Where `vfs_link_node_vfs` fails: a node in the root directory, and a directory without nodes.
use yanix.Common.{
  ℕ, zero, suc, ◌+◌, ◌<◌, ◌≡◌, ◌≢◌, refl, sym, ap, ◌∙◌, false, none, some, List, [], ◌∷◌, ◌++◌,
  arith, length, get_elem?, ne→==, take,
}
use yanix.Common.Int.{negsuc}
use yanix.Vfs.{Ptr, String, Node, State, load, write}
use yanix.Vfs.Lookup.{slash, vfs_find_path}
use yanix.Vfs.Lookup.Names.{join, NoSlash, Names, load-ok, outcome}
use yanix.Vfs.Lookup.Refines.{Graph, lookup, Represents, vfs_find_path-lookup}
use yanix.Vfs.Link.{last_node, link_into, vfs_link_node_vfs, is_slash, last_slash, cut_copy}
use yanix.Vfs.Link.Place.{
  last_slash-append, cut_copy-name, take-exact, is_slash-NoSlash, is_slash-behind,
}
use yanix.Vfs.Link.Lists.{update-ok, write-ne}
use yanix.Vfs.Link.Implements.{with_node}

last_slash-none :
    (n : ℕ) (tmp : String)
    → ((j : ℕ) → j < n → is_slash (get_elem? tmp (suc j)) ≡ false)
    → last_slash tmp n ≡ none
last_slash-none zero tmp clear = refl
last_slash-none (suc n) tmp clear =
    rw (clear n (omega arith)) (last_slash-none n tmp (λ j lt. clear j (omega arith)))

-- `vfs_link_node_vfs` of a name in the root directory returns -1 and links nothing, where the byte
-- behind its copy of the path is no slash.
pub vfs_link_node_vfs-root :
    (fuel x beyond : ℕ) (name : String) (p : Ptr) (s : State)
    → NoSlash (x ∷ name)
    → beyond ≢ slash
    → vfs_link_node_vfs fuel (slash ∷ x ∷ name) beyond p s ≡ some (negsuc 0, s)
unfolding vfs_link_node_vfs
vfs_link_node_vfs-root fuel x beyond name p s clear ne =
    let whole = is_slash-NoSlash (x ∷ name) (length name) clear in
    let none_left =
      last_slash-none (suc (suc (length name))) (slash ∷ (x ∷ name ++ beyond ∷ []))
        (λ j lt. is_slash-behind (x ∷ name) beyond j clear ne) in
    rw (whole, none_left) refl

last_node-null : (fuel : ℕ) (s : State) → last_node fuel 0 s ≡ none
unfolding last_node load
last_node-null zero s = refl
last_node-null (suc fuel) s = refl

link_into-empty :
    (fuel : ℕ) (dir p : Ptr) (t m : Node) (s : State)
    → p ≢ 0
    → s.node p ≡ some t
    → p ≢ dir
    → dir ≢ 0
    → s.node dir ≡ some m
    → m.dirlist ≡ 0
    → link_into fuel dir p s ≡ none
unfolding link_into
link_into-empty fuel dir p t m s p0 at p_dir dir0 at_dir none_there =
    let up : Node → Node = λ x. record x { parent = dir } in
    let s1 = with_node s (write s.node p (up t)) in
    let at_dir1 = write-ne s.node p dir (up t) (λ e. p_dir (sym e)) ∙ at_dir in
    rw (update-ok p up t s p0 at, load-ok dir m s1 dir0 at_dir1, none_there, last_node-null fuel s1)
      refl

link-faults :
    (fuel : ℕ) (path tmp : String) (beyond len i : ℕ) (dir p : Ptr) (s : State)
    → cut_copy path beyond ≡ some (tmp, len)
    → last_slash tmp len ≡ some i
    → vfs_find_path fuel (take i tmp) s ≡ some (dir, s)
    → dir ≢ 0
    → link_into fuel dir p s ≡ none
    → vfs_link_node_vfs fuel path beyond p s ≡ none
unfolding vfs_link_node_vfs
link-faults fuel path tmp beyond len i dir p s copy at found ne bad =
    rw (copy, at, found, ne→== dir 0 ne, bad) refl

-- `vfs_link_node_vfs` into a directory without nodes faults: it goes through the null `dirlist`.
pub vfs_link_node_vfs-empty :
    (fuel : ℕ) (live : Ptr → Type 0) (g : Graph) (s : State) (n : String) (ns : List String) (x : ℕ)
    (name : String) (beyond : ℕ) (dir p : Ptr) (t : Node)
    → Represents fuel live g s
    → live dir
    → g dir ≡ []
    → Names (n ∷ ns)
    → n ++ join ns ≢ []
    → NoSlash (x ∷ name)
    → lookup g s.root (n ∷ ns) ≡ some dir
    → beyond ≢ slash
    → p ≢ 0
    → s.node p ≡ some t
    → p ≢ dir
    → vfs_link_node_vfs fuel (join (n ∷ ns) ++ slash ∷ x ∷ name) beyond p s ≡ none
vfs_link_node_vfs-empty fuel live g s n ns x name beyond dir p t r lives empty names some_dir clear
      there ne p0 at p_dir =
    let d = n ++ join ns in
    let tail = slash ∷ (x ∷ name ++ beyond ∷ []) in
    let cut : take (suc (length d)) ((slash ∷ d) ++ tail) ≡ slash ∷ d =
      take-exact (slash ∷ d) tail in
    let found =
      vfs_find_path-lookup fuel live g s r n ns names some_dir
      ∙ ap (λ o. some (outcome o s)) there in
    let (dir0, m, at_dir, list, short) = r.dirs dir lives in
    let none_there : m.dirlist ≡ 0 = (rw empty at list) in
    link-faults fuel (join (n ∷ ns) ++ slash ∷ x ∷ name) ((slash ∷ d) ++ tail) beyond
      (suc (length d) + suc (suc (length name))) (suc (length d)) dir p s
      (cut_copy-name slash d name x beyond clear)
      (last_slash-append slash d (x ∷ name) beyond clear ne) (rw cut found) dir0
      (link_into-empty fuel dir p t m s p0 at p_dir dir0 at_dir none_there)
