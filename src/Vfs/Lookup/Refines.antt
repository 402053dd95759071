-- ===== src/Vfs/Lookup/Refines.antt =====
-- `vfs_find_path` follows the names of the path from directory to directory.
use yanix.Common.{
  ℕ, suc, ◌<◌, ◌≡◌, ◌≢◌, refl, sym, ap, ◌∙◌, inl, inr, Option, none, some, List, [], ◌∷◌, ◌++◌,
  arith, ◌==◌, if◌then◌else◌, length, ne→==, Option-cases,
}
use mathlib.Core.List.{append-nil, append_assoc}
use mathlib.Core.Path.{subst}
use yanix.Vfs.{Ptr, String, Node, State, pure, and_then, with_errno}
use yanix.Vfs.Lookup.{slash, enoent, path_find, walk, find_from_root, find_path, vfs_find_path}
use yanix.Vfs.Lookup.Names.{
  join, NoSlash, Names, Entries, entry, Linked, load-ok, outcome, find_node-entry,
}

-- A naming graph: what each directory holds.
abbrev pub Graph : Type 0
Graph = Ptr → Entries

-- The specification: from a node, follow the names.
abbrev pub follow : Graph → Option Ptr → List String → Option Ptr
follow g none ns = none
follow g (some p) [] = some p
follow g (some p) (n ∷ ns) = follow g (entry n (g p)) ns

abbrev pub lookup : Graph → Ptr → List String → Option Ptr
lookup g p ns = follow g (some p) ns

-- The nodes in memory are the graph: the root is live, and each live node has its entries linked in
-- memory, as many as the fuel allows, with live nodes.
pub record Represents (fuel : ℕ) (live : Ptr → Type 0) (g : Graph) (s : State) : Type 0 where
  pub root : live s.root
  pub dirs :
      (p : Ptr)
      → live p
      → (p ≢ 0)
        × (n : Node) × (s.node p ≡ some n)
        × Linked s.node n.dirlist (g p)
        × (length (g p) < fuel)
  pub closed : (p : Ptr) → live p → (name : String) (q : Ptr) → entry name (g p) ≡ some q → live q

pub path_find-entry :
    (fuel : ℕ) (live : Ptr → Type 0) (g : Graph) (s : State)
    → Represents fuel live g s
    → (p : Ptr) (name : String) → live p
    → path_find fuel p name s ≡ some (outcome (entry name (g p)) s)
unfolding path_find
path_find-entry fuel live g s r p name lives =
    let (ne, n, at, linked, lt) = r.dirs p lives in
    rw (load-ok p n s ne at) (find_node-entry (g p) fuel name n.dirlist s linked lt)

pub follow_end : (g : Graph) (o : Option Ptr) → follow g o [] ≡ o
follow_end g none = refl
follow_end g (some p) = refl

walk-lookup :
    (ns : List String) (n buf : String) (fuel : ℕ) (live : Ptr → Type 0) (g : Graph) (s : State)
    → Represents fuel live g s
    → (p : Ptr) → live p
    → NoSlash n
    → Names ns
    → walk fuel p buf (n ++ join ns) s ≡ some (outcome (lookup g p ((buf ++ n) ∷ ns)) s)
unfolding walk
walk-lookup [] [] buf fuel live g s r p lives nos names = rw (append-nil buf) (
    path_find-entry fuel live g s r p buf lives
    ∙ ap (λ o. some (outcome o s)) (sym (follow_end g (entry buf (g p)))))
walk-lookup (m ∷ ms) [] buf fuel live g s r p lives nos names =
    let found = path_find-entry fuel live g s r p buf lives in
    let Goal : Option Ptr → Type 0 =
      λ o. walk fuel p buf (slash ∷ m ++ join ms) s ≡ some (outcome (follow g o (m ∷ ms)) s) in
    rw (append-nil buf) (elim (Option-cases (entry buf (g p))) [
      | inl missing ↦ subst Goal (sym missing) (rw (found, missing) refl)
      | inr (q, here) ↦
          let lives' = r.closed p lives buf q here in
          let run = walk-lookup ms m [] fuel live g s r q lives' names.0 names.1 in
          subst Goal (sym here) (rw (found, here, ne→== q 0 (r.dirs q lives').0) run)
    ])
walk-lookup ns (c ∷ n) buf fuel live g s r p lives (ne, nos) names = rw (ne→== c slash ne) (
    walk-lookup ns n (buf ++ c ∷ []) fuel live g s r p lives nos names
    ∙ ap (λ b. some (outcome (lookup g p (b ∷ ns)) s)) (append_assoc buf (c ∷ []) n))

find_path-absolute :
    (fuel calls : ℕ) (path : String) (s : State)
    → path ≢ []
    → s.root ≢ 0
    → find_path fuel (suc calls) (slash ∷ path) s ≡ walk fuel s.root [] path s
unfolding find_path find_from_root
find_path-absolute fuel calls [] s some_path root0 = absurd (some_path refl)
find_path-absolute fuel calls (c ∷ path) s some_path root0 = rw (ne→== s.root 0 root0) refl

find_path-lookup :
    (fuel calls : ℕ) (live : Ptr → Type 0) (g : Graph) (s : State)
    → Represents fuel live g s
    → (n : String) (ns : List String) → Names (n ∷ ns)
    → n ++ join ns ≢ []
    → find_path fuel (suc calls) (join (n ∷ ns)) s ≡ some (outcome (lookup g s.root (n ∷ ns)) s)
find_path-lookup fuel calls live g s r n ns names some_name =
    find_path-absolute fuel calls (n ++ join ns) s some_name (r.dirs s.root r.root).0
    ∙ walk-lookup ns n [] fuel live g s r s.root r.root names.0 names.1

-- `vfs_find_path` of an absolute path other than "/" never faults: it returns the node that its
-- names lead to from the root, and null, with `errno` at ENOENT, where they lead to none. A double
-- or last slash stands for an empty name.
pub vfs_find_path-lookup :
    (fuel : ℕ) (live : Ptr → Type 0) (g : Graph) (s : State)
    → Represents fuel live g s
    → (n : String) (ns : List String) → Names (n ∷ ns)
    → n ++ join ns ≢ []
    → vfs_find_path fuel (join (n ∷ ns)) s ≡ some (outcome (lookup g s.root (n ∷ ns)) s)
unfolding vfs_find_path
vfs_find_path-lookup fuel live g s r n ns names some_name =
    find_path-lookup fuel 1 live g s r n ns names some_name

pub join-append : (xs ys : List String) → join (xs ++ ys) ≡ join xs ++ join ys
join-append [] ys = refl
join-append (x ∷ xs) ys =
    rw (join-append xs ys) (ap (λ r. slash ∷ r) (sym (append_assoc x (join xs) (join ys))))

pub Names-append : (xs ys : List String) → Names xs → Names ys → Names (xs ++ ys)
Names-append [] ys h g = g
Names-append (x ∷ xs) ys (h, hs) g = (h, Names-append xs ys hs g)

Represents-errno :
    (fuel : ℕ) (live : Ptr → Type 0) (g : Graph) (s : State) (e : ℕ)
    → Represents fuel live g s
    → Represents fuel live g (with_errno e s)
Represents-errno fuel live g s e r = record { root = r.root; dirs = r.dirs; closed = r.closed }

pub some_join : (w : String) (ws xs : List String) (x : String) → w ++ join (ws ++ x ∷ xs) ≢ []
some_join [] [] xs x e = ground (arith, e)
some_join [] (v ∷ ws) xs x e = ground (arith, e)
some_join (c ∷ w) ws xs x e = ground (arith, e)

find_path-again :
    (fuel calls c : ℕ) (path : String) (s : State)
    → c ≢ slash
    → find_path fuel (suc calls) (c ∷ path) s
      ≡ and_then
          (find_path fuel calls (s.cwd ++ slash ∷ c ∷ path) s)
          (λ node. if node == 0 then find_from_root fuel (c ∷ path) else pure node)
unfolding find_path
find_path-again fuel calls c path s ne = rw (ne→== c slash ne) refl

pub follow-live :
    (ns : List String) (fuel : ℕ) (live : Ptr → Type 0) (g : Graph) (s : State)
    → Represents fuel live g s
    → (p q : Ptr) → live p
    → follow g (some p) ns ≡ some q
    → live q
follow-live [] fuel live g s r p q lives h = let e : p ≡ q = ground (arith, h) in (rw e at lives)
follow-live (n ∷ ns) fuel live g s r p q lives h =
    let h' : follow g (entry n (g p)) ns ≡ some q = h in
    elim (Option-cases (entry n (g p))) [
      | inl missing ↦ absurd (let bad = rw missing at h' in cc)
      | inr (next, here) ↦
          follow-live ns fuel live g s r next q (r.closed p lives n next here) (rw here at h')
    ]

-- What a relative lookup gives: `o` in the working directory, else `d` with the first character
-- cut off.
abbrev pub or_cut : (o d : Option Ptr) → State → Ptr × State
or_cut (some p) d s = (p, s)
or_cut none d s = outcome d (with_errno enoent s)

-- `vfs_find_path` of a relative path, where the working directory is absolute, never faults: it
-- returns the node that its names lead to from the working directory. Where they lead to none, the
-- path is taken from the root, without its first character.
pub vfs_find_path-relative :
    (fuel : ℕ) (live : Ptr → Type 0) (g : Graph) (s : State)
    → Represents fuel live g s
    → (w : String) (ws : List String) (c : ℕ) (m : String) (ms : List String)
    → s.cwd ≡ join (w ∷ ws)
    → Names (w ∷ ws)
    → Names ((c ∷ m) ∷ ms)
    → vfs_find_path fuel (c ∷ m ++ join ms) s
      ≡ some (or_cut (lookup g s.root (w ∷ ws ++ (c ∷ m) ∷ ms)) (lookup g s.root (m ∷ ms)) s)
unfolding vfs_find_path find_from_root
vfs_find_path-relative fuel live g s r w ws c m ms cwd wnames names =
    let all = ws ++ (c ∷ m) ∷ ms in
    let whole : s.cwd ++ slash ∷ c ∷ (m ++ join ms) ≡ join (w ∷ all) =
      rw cwd (sym (join-append (w ∷ ws) ((c ∷ m) ∷ ms))) in
    let found : find_path fuel 1 (join (w ∷ all)) s ≡ some (outcome (lookup g s.root (w ∷ all)) s) =
      find_path-lookup fuel 0 live g s r w all
        (wnames.0, Names-append ws ((c ∷ m) ∷ ms) wnames.1 names) (some_join w ws ms (c ∷ m)) in
    let late = with_errno enoent s in
    let cut =
      walk-lookup ms m [] fuel live g late (Represents-errno fuel live g s enoent r) s.root r.root
        names.0.1 names.1 in
    let root0 = (r.dirs s.root r.root).0 in
    find_path-again fuel 1 c (m ++ join ms) s names.0.0
    ∙ rw (whole, found)
        (elim (Option-cases (lookup g s.root (w ∷ all))) [
          | inl missing ↦ rw (missing, ne→== s.root 0 root0) cut
          | inr (p, here) ↦
              let lives = follow-live (w ∷ all) fuel live g s r s.root p r.root here in
              rw (here, ne→== p 0 (r.dirs p lives).0) refl
        ])
