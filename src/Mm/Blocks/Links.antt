-- ===== src/Mm/Blocks/Links.antt =====
-- What the pointer writes of linkedlist.c do to the segments of the used and the free list.
use yanix.Common.{
  ℕ, zero, suc, ◌<◌, ◌≡◌, ◌≢◌, refl, ◌∙◌, false, Option, some, [], ◌∷◌, ◌++◌, arith, length, ne→==,
}
use yanix.Mm.Blocks.{
  Ptr, Node, State, write, load, store, set_next, set_prev, last_node, link_last, link_alone,
}
use yanix.Mm.Blocks.Segments.{
  BlockList, node, last_or, has, Seg, frame-write, join, has-last, ne-has, write-ne, relink_last,
}

abbrev pub with_cell : State → (Ptr → Option Node) → State
with_cell s c = record s { cell = c }

pub load-ok : (p : Ptr) (n : Node) (s : State) → p ≢ 0 → s.cell p ≡ some n → load p s ≡ some (n, s)
unfolding load
load-ok p n s ne at = rw (ne→== p 0 ne, at)

pub store-ok :
    (p : Ptr) (n : Node) (s : State)
    → p ≢ 0
    → store p n s ≡ some (tt, with_cell s (write s.cell p n))
unfolding store
store-ok p n s ne = rw (ne→== p 0 ne)

pub set_next-ok :
    (p q : Ptr) (n : Node) (s : State)
    → p ≢ 0
    → s.cell p ≡ some n
    → set_next p q s ≡ some (tt, with_cell s (write s.cell p (record n { next = q })))
unfolding set_next
set_next-ok p q n s ne at = rw (load-ok p n s ne at, store-ok p (record n { next = q }) s ne)

pub set_prev-ok :
    (p q : Ptr) (n : Node) (s : State)
    → p ≢ 0
    → s.cell p ≡ some n
    → set_prev p q s ≡ some (tt, with_cell s (write s.cell p (record n { prev = q })))
unfolding set_prev
set_prev-ok p q n s ne at = rw (load-ok p n s ne at, store-ok p (record n { prev = q }) s ne)

-- The memory `d` differs from `c` at most at the blocks of `xs` and at `p`.
abbrev pub SameBut : BlockList → Ptr → (c d : Ptr → Option Node) → Type 0
SameBut xs p c d = (q : Ptr) → has q xs ≡ false → q ≢ p → d q ≡ c q

pub last_node-last :
    (fuel : ℕ) (prev a : Ptr) (z : ℕ) (xs : BlockList) (s : State)
    → Seg s.cell prev ((a, z) ∷ xs) 0
    → length xs < fuel
    → last_node fuel a s ≡ some (last_or a xs, s)
unfolding last_node
last_node-last zero prev a z xs s h lt = absurd (omega arith)
last_node-last (suc fuel) prev a z [] s (ne, at, out, rest) lt = rw (load-ok a _ s ne at)
last_node-last (suc fuel) prev a z ((b, t) ∷ xs) s (ne, at, out, rest) lt =
    rw (load-ok a _ s ne at, ne→== b 0 rest.0) (last_node-last fuel a b t xs s rest (omega arith))

-- The list of one block.
pub alone-Seg :
    (p : Ptr) (m : Node) (s : State)
    → p ≢ 0
    → s.cell p ≡ some m
    → (d : Ptr → Option Node) × (link_alone p s ≡ some (tt, with_cell s d))
      × Seg d 0 ((p, m.size) ∷ []) 0
      × SameBut [] p s.cell d
unfolding link_alone
alone-Seg p m s ne at =
    let c1 = write s.cell p (record m { prev = 0 }) in
    let c2 = write c1 p (node m.size 0 0) in
    (
      c2,
      rw (
        set_prev-ok p 0 m s ne at,
        set_next-ok p 0 (record m { prev = 0 }) (with_cell s c1) ne (ground arith),
      ),
      (ne, ground arith, refl, tt),
      λ q out other. ground arith,
    )

-- The block `p` behind the last one.
pub link_last-Seg :
    (a : Ptr) (z : ℕ) (xs : BlockList) (p : Ptr) (m : Node) (s : State)
    → Seg s.cell 0 ((a, z) ∷ xs) 0
    → p ≢ 0
    → s.cell p ≡ some m
    → has p ((a, z) ∷ xs) ≡ false
    → (d : Ptr → Option Node) × (link_last (last_or a xs) p s ≡ some (tt, with_cell s d))
      × Seg d 0 ((a, z) ∷ xs ++ (p, m.size) ∷ []) 0
      × SameBut ((a, z) ∷ xs) p s.cell d
unfolding link_last
link_last-Seg a z xs p m s h ne at out =
    let l = last_or a xs in
    let (n, ne_l, at_l, e, seg) = relink_last s.cell 0 0 p a z xs h in
    let apart = ne-has l p ((a, z) ∷ xs) (has-last a z xs) out in
    let c1 = write s.cell l (record n { next = p }) in
    let at1 = write-ne s.cell l p (record n { next = p }) apart ∙ at in
    let c2 = write c1 p (record m { prev = l }) in
    let c3 = write c2 p (node m.size 0 l) in
    (
      c3,
      rw (
        set_next-ok l p n s ne_l at_l,
        set_prev-ok p l m (with_cell s c1) ne at1,
        set_next-ok p 0 (record m { prev = l }) (with_cell s c2) ne (ground arith),
      ),
      join c3 0 0 ((a, z) ∷ xs) ((p, m.size) ∷ [])
          (frame-write c2 0 p p (node m.size 0 l) ((a, z) ∷ xs)
            (frame-write c1 0 p p (record m { prev = l }) ((a, z) ∷ xs) seg out) out)
          (ne, ground arith, refl, tt)
          (λ b inside. ground (arith, ne-has b p ((a, z) ∷ xs) inside out)),
      λ q outside other.
          write-ne c2 p q (node m.size 0 l) other
          ∙ write-ne c1 p q (record m { prev = l }) other
          ∙ write-ne s.cell l q (record n { next = p })
              (ne-has l q ((a, z) ∷ xs) (has-last a z xs) outside),
    )
