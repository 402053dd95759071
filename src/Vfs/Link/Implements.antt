-- ===== src/Vfs/Link/Implements.antt =====
-- `vfs_link_node_vfs` adds the node to the naming graph.
use yanix.Common.{
  ℕ, ◌+◌, ◌<◌, ◌≡◌, ◌≢◌, refl, sym, ap, ◌∙◌, inl, inr, ◌⊎◌, Option, some, List, [], ◌∷◌, ◌++◌,
  arith, ◌==◌, if◌then◌else◌, length, ne→==, eq→==, Option-cases, length-append,
}
use mathlib.Core.Path.{subst}
use native.Mathlib.Decide.{ℕ_discrete}
use yanix.Vfs.{Ptr, String, Node, State, write}
use yanix.Vfs.Lookup.Names.{Entries, entry, Linked, load-ok}
use yanix.Vfs.Lookup.Refines.{Graph, follow, Represents}
use yanix.Vfs.Link.{link_into}
use yanix.Vfs.Link.Lists.{
  Off, DistinctNodes, last_of, update-ok, write-ne, write_self, write-dirlist, Off-last,
  entry-append, entry-longer, Linked-write, Linked-append, last_node-last,
}

-- The graph with an entry more at the end of a directory, for a node without entries.
abbrev pub linked : Graph → (dir : Ptr) (name : String) (p : Ptr) → Graph
linked g dir name p q = if q == dir then g dir ++ (name, p) ∷ [] else if q == p then [] else g q

-- A node that is not in the graph yet, and a directory, with entries `(k, a) ∷ es`, that can take it.
pub record Linkable (fuel : ℕ) (live : Ptr → Type 0) (g : Graph) (s : State) (dir : Ptr)
    (k : String) (a : Ptr) (es : Entries) (name : String) (p : Ptr) : Type 0 where
  pub dir_live : live dir
  pub entries : g dir ≡ (k, a) ∷ es
  pub distinct : DistinctNodes ((k, a) ∷ es)
  pub some_node : p ≢ 0
  pub node : (n : Node) × (s.node p ≡ some n) × (n.name ≡ name) × (n.nextnode ≡ 0) × (n.dirlist ≡ 0)
  pub fresh : (q : Ptr) → live q → (p ≢ q) × Off p (g q)
  pub apart : (q : Ptr) → live q → q ≢ dir → Off (last_of a es) (g q)
  pub room : length (g dir) + 1 < fuel

-- What `link_into` leaves.
pub record Inserted (s : State) (dir : Ptr) (k : String) (a : Ptr) (es : Entries) (name : String)
    (p : Ptr) (d : Ptr → Option Node) : Type 0 where
  pub list : (n : Node) × (d dir ≡ some n) × Linked d n.dirlist ((k, a) ∷ es ++ (name, p) ∷ [])
  pub new : (n : Node) × (d p ≡ some n) × (n.parent ≡ dir) × (n.dirlist ≡ 0)
  pub nodes :
      (q : Ptr) (n : Node)
      → q ≢ p
      → s.node q ≡ some n
      → (m : Node) × (d q ≡ some m) × (m.dirlist ≡ n.dirlist)
  pub lists :
      (q : Ptr) (fs : Entries)
      → Off p fs
      → Off (last_of a es) fs
      → Linked s.node q fs
      → Linked d q fs

abbrev pub with_node : State → (Ptr → Option Node) → State
with_node s c = record s { node = c }

pub link_into-Inserted :
    (fuel : ℕ) (live : Ptr → Type 0) (g : Graph) (s : State) (dir : Ptr) (k : String) (a : Ptr)
    (es : Entries) (name : String) (p : Ptr)
    → Represents fuel live g s
    → Linkable fuel live g s dir k a es name p
    → (d : Ptr → Option Node) × (link_into fuel dir p s ≡ some (tt, with_node s d))
      × Inserted s dir k a es name p d
unfolding link_into
link_into-Inserted fuel live g s dir k a es name p r h =
    let (n0, at_p, named, end, empty) = h.node in
    let (dir0, n, at_dir, list, short) = r.dirs dir h.dir_live in
    let (p_dir, p_off) = h.fresh dir h.dir_live in
    let n1 : Node = record n0 { parent = dir } in
    let c1 = write s.node p n1 in
    let s1 = with_node s c1 in
    let p_list : Off p ((k, a) ∷ es) = (rw h.entries at p_off) in
    let list' : Linked s.node n.dirlist ((k, a) ∷ es) = (rw h.entries at list) in
    let list1 = Linked-write s.node n.dirlist p n1 ((k, a) ∷ es) list' p_list in
    let short' : length ((k, a) ∷ es) < fuel = (rw h.entries at short) in
    let at_dir1 : c1 dir ≡ some n = write-ne s.node p dir n1 (λ e. p_dir (sym e)) ∙ at_dir in
    let (u, last0, at_last, longer) =
      Linked-append es c1 n.dirlist a k name p n1 list1 h.distinct p_list h.some_node
        (write_self s.node p n1) end named in
    let last = last_of a es in
    let u' : Node = record u { nextnode = p } in
    let walk = last_node-last es fuel s1 n.dirlist a k list1 (omega arith) in
    let (m, at_m, same) = write-dirlist c1 last u u' at_last refl dir n at_dir1 in
    (
      write c1 last u',
      rw
          (
            update-ok p (λ (x : Node). record x { parent = dir }) n0 s h.some_node at_p,
            load-ok dir n s1 dir0 at_dir1,
            walk,
          )
          (update-ok last (λ (x : Node). record x { nextnode = p }) u s1 last0 at_last),
      record {
        list = (m, at_m, rw same longer);
        new = (
          n1,
          write-ne c1 last p u' (Off-last p a k es p_list) ∙ write_self s.node p n1,
          refl,
          empty,
        );
        nodes =
            λ q m ne e. write-dirlist c1 last u u' at_last refl q m (write-ne s.node p q n1 ne ∙ e);
        lists = λ q fs out out' fine.
            Linked-write c1 q last u' fs (Linked-write s.node q p n1 fs fine out) out';
      },
    )

-- The nodes of the graph and the new one.
abbrev pub Also : (Ptr → Type 0) → Ptr → Ptr → Type 0
Also live p q = live q ⊎ (q ≡ p)

pub linked_dir :
    (g : Graph) (dir : Ptr) (name : String) (p : Ptr)
    → linked g dir name p dir ≡ g dir ++ (name, p) ∷ []
linked_dir g dir name p = rw (eq→== dir dir refl) refl

linked_new :
    (g : Graph) (dir : Ptr) (name : String) (p : Ptr) → p ≢ dir → linked g dir name p p ≡ []
linked_new g dir name p ne = rw (ne→== p dir ne, eq→== p p refl) refl

linked_other :
    (g : Graph) (dir : Ptr) (name : String) (p q : Ptr)
    → q ≢ dir
    → q ≢ p
    → linked g dir name p q ≡ g q
linked_other g dir name p q ne ne' = rw (ne→== q dir ne, ne→== q p ne') refl

abbrev Holds : (fuel : ℕ) → (Ptr → Option Node) → Ptr → Entries → Type 0
Holds fuel d q es =
    (q ≢ 0) × (n : Node) × (d q ≡ some n) × Linked d n.dirlist es × (length es < fuel)

linked-closed :
    (fuel : ℕ) (live : Ptr → Type 0) (g : Graph) (s : State) (dir : Ptr) (name : String) (p : Ptr)
    → Represents fuel live g s
    → p ≢ dir
    → (q : Ptr) → Also live p q
    → (want : String) (t : Ptr) → entry want (linked g dir name p q) ≡ some t
    → Also live p t
linked-closed fuel live g s dir name p r ne q (inr new) want t h =
    let e : linked g dir name p q ≡ [] =
      ap (linked g dir name p) new ∙ linked_new g dir name p ne in
    absurd (let bad = sym (ap (entry want) e) ∙ h in ground (arith, bad))
linked-closed fuel live g s dir name p r ne q (inl old) want t h = elim (ℕ_discrete q dir) [
  | yes here ↦
      let e : linked g dir name p q ≡ g dir ++ (name, p) ∷ [] =
        ap (linked g dir name p) here ∙ linked_dir g dir name p in
      elim (entry-append (g dir) want name p t (sym (ap (entry want) e) ∙ h)) [
        | inl there ↦ inl (r.closed q old want t (ap (λ x. entry want (g x)) here ∙ there))
        | inr new ↦ inr new
      ]
  | no other ↦ elim (ℕ_discrete q p) [
    | yes here ↦
        let e : linked g dir name p q ≡ [] =
          ap (linked g dir name p) here ∙ linked_new g dir name p ne in
        absurd (let bad = sym (ap (entry want) e) ∙ h in ground (arith, bad))
    | no ne' ↦
        inl (
          r.closed q old want t (sym (ap (entry want) (linked_other g dir name p q other ne')) ∙ h))
  ]
]

-- The graph with the entry more.
pub link_into-Represents :
    (fuel : ℕ) (live : Ptr → Type 0) (g : Graph) (s : State) (dir : Ptr) (k : String) (a : Ptr)
    (es : Entries) (name : String) (p : Ptr)
    → Represents fuel live g s
    → Linkable fuel live g s dir k a es name p
    → (d : Ptr → Option Node) → Inserted s dir k a es name p d
    → Represents fuel (Also live p) (linked g dir name p) (with_node s d)
link_into-Represents fuel live g s dir k a es name p r h d into =
    let p_dir : p ≢ dir = (h.fresh dir h.dir_live).0 in
    record {
      root = inl r.root;
      dirs = λ q lives. elim lives [
        | inr new ↦
            let e : linked g dir name p q ≡ [] =
              ap (linked g dir name p) new ∙ linked_new g dir name p p_dir in
            subst (Holds fuel d q) (sym e) (
              let (n, at, up, empty) = into.new in
              ((λ z. h.some_node (sym new ∙ z)), n, ap d new ∙ at, empty, omega (arith, h.room)))
        | inl old ↦
            let (q0, n, at, list, short) = r.dirs q old in
            let (p_q, out) = h.fresh q old in
            elim (ℕ_discrete q dir) [
              | yes here ↦
                  let e : linked g dir name p q ≡ (k, a) ∷ es ++ (name, p) ∷ [] =
                    ap (linked g dir name p) here
                    ∙ linked_dir g dir name p
                    ∙ ap (λ (x : Entries). x ++ (name, p) ∷ []) h.entries in
                  let (n', at', list') = into.list in
                  subst (Holds fuel d q) (sym e) (
                    q0,
                    n',
                    ap d here ∙ at',
                    list',
                    omega (
                      arith,
                      length-append ((k, a) ∷ es) ((name, p) ∷ []),
                      ap length h.entries,
                      h.room,
                    ),
                  )
              | no other ↦
                  let e = linked_other g dir name p q other (λ z. p_q (sym z)) in
                  let (m, at', same) = into.nodes q n (λ z. p_q (sym z)) at in
                  let list' = into.lists n.dirlist (g q) out (h.apart q old other) list in
                  subst (Holds fuel d q) (sym e) (q0, m, at', rw same list', short)
            ]
      ];
      closed = linked-closed fuel live g s dir name p r p_dir;
    }

-- A path that is found is still found in the larger graph.
pub follow-linked :
    (ns : List String) (g : Graph) (dir : Ptr) (name : String) (p q t : Ptr) (live : Ptr → Type 0)
    → ((q : Ptr) → live q → p ≢ q)
    → ((q : Ptr) → live q → (name : String) (t : Ptr) → entry name (g q) ≡ some t → live t)
    → live q
    → follow g (some q) ns ≡ some t
    → follow (linked g dir name p) (some q) ns ≡ some t
follow-linked [] g dir name p q t live fresh closed lives h = h
follow-linked (n ∷ ns) g dir name p q t live fresh closed lives h =
    let h' : follow g (entry n (g q)) ns ≡ some t = h in
    elim (Option-cases (entry n (g q))) [
      | inl missing ↦ absurd (let bad = rw missing at h' in ground (arith, bad))
      | inr (next, here) ↦
          let longer : entry n (linked g dir name p q) ≡ some next = elim (ℕ_discrete q dir) [
            | yes at ↦
                rw (eq→== q dir at)
                  (entry-longer (g dir) n name p next (ap (λ x. entry n (g x)) (sym at) ∙ here))
            | no other ↦
                ap (entry n) (linked_other g dir name p q other (λ z. fresh q lives (sym z))) ∙ here
          ] in
          ap (λ o. follow (linked g dir name p) o ns) longer
          ∙ follow-linked ns g dir name p next t live fresh closed (closed q lives n next here)
              (rw here at h')
    ]
