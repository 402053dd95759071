-- ===== src/Vfs/Link/Lists.antt =====
-- Lists of nodes: a node goes to the end of one.
use yanix.Common.{
  ℕ, zero, suc, ◌<◌, ◌≡◌, ◌≢◌, refl, sym, ap, ◌∙◌, inl, inr, ◌⊎◌, true, Option, none, some, [], ◌∷◌,
  ◌++◌, arith, length, Bool-cases, ne→==, eq→==,
}
use native.Mathlib.Decide.{ℕ_discrete}
use yanix.Vfs.{Ptr, String, Node, State, update, write}
use yanix.Vfs.Lookup.{same_name}
use yanix.Vfs.Lookup.Names.{Entries, entry, Linked, load-ok}
use yanix.Vfs.Link.{last_node}

-- The entry is not among the entries.
abbrev pub Off : Ptr → Entries → Type 0
Off p [] = Unit {0}
Off p ((n, q) ∷ es) = (p ≢ q) × Off p es

abbrev pub DistinctNodes : Entries → Type 0
DistinctNodes [] = Unit {0}
DistinctNodes ((n, p) ∷ es) = Off p es × DistinctNodes es

-- The node of the last entry.
abbrev pub last_of : Ptr → Entries → Ptr
last_of d [] = d
last_of d ((n, p) ∷ es) = last_of p es

pub update-ok :
    (p : Ptr) (f : Node → Node) (n : Node) (s : State)
    → p ≢ 0
    → s.node p ≡ some n
    → update p f s ≡ some (tt, record s { node = write s.node p (f n) })
unfolding update
update-ok p f n s ne at = rw (load-ok p n s ne at) refl

pub write-ne : (c : Ptr → Option Node) (p q : Ptr) (n : Node) → q ≢ p → write c p n q ≡ c q
write-ne c p q n ne = rw (ne→== q p ne) refl

pub write_self : (c : Ptr → Option Node) (p : Ptr) (n : Node) → write c p n p ≡ some n
write_self c p n = rw (eq→== p p refl) refl

-- A list survives a write to a node that is not on it.
pub Linked-write :
    (c : Ptr → Option Node) (p r : Ptr) (t : Node) (es : Entries)
    → Linked c p es
    → Off r es
    → Linked (write c r t) p es
Linked-write c p r t [] h out = h
Linked-write c p r t ((name, q) ∷ es) (e, ne, n, at, called, rest) (r_q, out) = (
  e,
  ne,
  n,
  write-ne c r q t (λ x. r_q (sym x)) ∙ at,
  called,
  Linked-write c n.nextnode r t es rest out,
)

pub Off-last :
    (r q : Ptr) (name : String) (es : Entries) → Off r ((name, q) ∷ es) → r ≢ last_of q es
Off-last r q name [] (ne, out) = ne
Off-last r q name ((m, b) ∷ es) (ne, out) = Off-last r b m es out

-- The node behind the last one.
pub Linked-append :
    (es : Entries) (c : Ptr → Option Node) (p a : Ptr) (m name : String) (q : Ptr) (t : Node)
    → Linked c p ((m, a) ∷ es)
    → DistinctNodes ((m, a) ∷ es)
    → Off q ((m, a) ∷ es)
    → q ≢ 0
    → c q ≡ some t
    → t.nextnode ≡ 0
    → t.name ≡ name
    → (u : Node) × (last_of a es ≢ 0)
      × (c (last_of a es) ≡ some u)
      × Linked
          (write c (last_of a es) (record u { nextnode = q }))
          p
          ((m, a) ∷ es ++ (name, q) ∷ [])
Linked-append [] c p a m name q t (e, ne, u, at, called, rest) d (q_a, out) q0 at_q end named =
    let u' : Node = record u { nextnode = q } in
    (
      u,
      ne,
      at,
      (
        e,
        ne,
        u',
        write_self c a u',
        called,
        (refl, q0, t, write-ne c a q u' q_a ∙ at_q, named, end),
      ),
    )
Linked-append ((k, b) ∷ es) c p a m name q t (e, ne, u, at, called, rest) ((a_b, a_out), d)
      (q_a, out) q0 at_q end named =
    let (v, ne', at', longer) =
      Linked-append es c u.nextnode b k name q t rest d out q0 at_q end named in
    let clear = Off-last a b k es (a_b, a_out) in
    (
      v,
      ne',
      at',
      (
        e,
        ne,
        u,
        write-ne c (last_of b es) a (record v { nextnode = q }) clear ∙ at,
        called,
        longer,
      ),
    )

pub last_node-last :
    (es : Entries) (fuel : ℕ) (s : State) (p a : Ptr) (m : String)
    → Linked s.node p ((m, a) ∷ es)
    → length es < fuel
    → last_node fuel p s ≡ some (last_of a es, s)
unfolding last_node
last_node-last es zero s p a m h lt = absurd (omega arith)
last_node-last [] (suc fuel) s p a m (e, ne, n, at, called, rest) lt =
    rw (e, load-ok a n s ne at, eq→== n.nextnode 0 rest) refl
last_node-last ((k, b) ∷ es) (suc fuel) s p a m (e, ne, n, at, called, rest) lt =
    let next_ne : n.nextnode ≢ 0 = λ r. rest.1 (sym rest.0 ∙ r) in
    rw (e, load-ok a n s ne at, ne→== n.nextnode 0 next_ne)
      (last_node-last es fuel s n.nextnode b k rest (omega arith))

-- A write of a node with the same list of its own.
pub write-dirlist :
    (c : Ptr → Option Node) (p : Ptr) (old new : Node)
    → c p ≡ some old
    → new.dirlist ≡ old.dirlist
    → (q : Ptr) (n : Node) → c q ≡ some n
    → (m : Node) × (write c p new q ≡ some m) × (m.dirlist ≡ n.dirlist)
write-dirlist c p old new at same q n h = elim (ℕ_discrete q p) [
  | no other ↦ (n, write-ne c p q new other ∙ h, refl)
  | yes here ↦
      let e : some old ≡ some n = sym at ∙ ap c (sym here) ∙ h in
      (new, ap (λ x. write c p new x) here ∙ write_self c p new, ground (arith, same, e))
]

pub entry-append :
    (es : Entries) (want name : String) (p q : Ptr)
    → entry want (es ++ (name, p) ∷ []) ≡ some q
    → (entry want es ≡ some q) ⊎ (q ≡ p)
entry-append [] want name p q h = elim (Bool-cases (same_name want name)) [
  | inl same ↦ inr (ground (arith, same, h))
  | inr other ↦ absurd (ground (arith, other, h))
]
entry-append ((m, a) ∷ es) want name p q h = elim (Bool-cases (same_name want m)) [
  | inl same ↦ inl (ground (arith, same, h))
  | inr other ↦
      let h' : entry want (es ++ (name, p) ∷ []) ≡ some q = ground (arith, other, h) in
      elim (entry-append es want name p q h') [
        | inl there ↦ inl (rw other there)
        | inr new ↦ inr new
      ]
]

pub entry-longer :
    (es : Entries) (want name : String) (p q : Ptr)
    → entry want es ≡ some q
    → entry want (es ++ (name, p) ∷ []) ≡ some q
entry-longer [] want name p q h = absurd (ground (arith, h))
entry-longer ((m, a) ∷ es) want name p q h = elim (Bool-cases (same_name want m)) [
  | inl same ↦ (rw same (rw same at h))
  | inr other ↦ rw other (entry-longer es want name p q (rw other at h))
]

same_name_self : (n : String) → same_name n n ≡ true
unfolding same_name
same_name_self [] = refl
same_name_self (x ∷ xs) = rw (eq→== x x refl) (same_name_self xs)

pub entry-new :
    (es : Entries) (name : String) (p : Ptr)
    → entry name es ≡ none
    → entry name (es ++ (name, p) ∷ []) ≡ some p
entry-new [] name p h = rw (same_name_self name) refl
entry-new ((m, a) ∷ es) name p h = elim (Bool-cases (same_name name m)) [
  | inl same ↦ absurd (ground (arith, same, h))
  | inr other ↦ rw other (entry-new es name p (rw other at h))
]
