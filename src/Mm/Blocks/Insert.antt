-- ===== src/Mm/Blocks/Insert.antt =====
-- `add_to_free`: a block goes into the free list in front of the first larger one.
use yanix.Common.{
  ℕ, zero, suc, ◌≤◌, ◌<◌, ◌≡◌, ◌≢◌, refl, sym, ap, ◌∙◌, inl, inr, true, false, Option, some, [],
  ◌∷◌, ◌++◌, arith, ◌==◌, ltb, if◌then◌else◌, length, Bool-cases, ne→==, eq→==,
}
use mathlib.Core.List.{append_assoc}
use yanix.Mm.Blocks.{
  Ptr, Node, LinkedList, State, write, link_before, link_last, insert_free, add_to_free,
}
use yanix.Mm.Blocks.Segments.{
  BlockList, node, head_or, last_or, has, Seg, Disjoint, frame, frame-write, split, join,
  has-append, ne-has, write-ne, last_or-append,
}
use yanix.Mm.Blocks.Links.{
  with_cell, load-ok, set_next-ok, set_prev-ok, alone-Seg, link_last-Seg, SameBut,
}
use yanix.Mm.Blocks.Release.{started, with_both, relink_prev, from_free, middle-once}

-- The free list is in the order of the sizes where it was; a block goes behind those of its size.
abbrev pub insert_block : Ptr → ℕ → BlockList → BlockList
insert_block p z [] = (p, z) ∷ []
insert_block p z ((b, t) ∷ ys) =
    if ltb z t then (p, z) ∷ (b, t) ∷ ys else (b, t) ∷ insert_block p z ys

-- What putting the block `p` into the free list `old` does, with the list `new` for a result.
pub record Inserted (s : State) (old new : BlockList) (p : Ptr) (s' : State) : Type 0 where
  pub list : s'.list ≡ record (s.list) { start_free = head_or 0 new }
  pub seg : Seg s'.cell 0 new 0
  pub same : SameBut old p s.cell s'.cell

started-front :
    (l : LinkedList) (xs ys : BlockList) (p b : Ptr) (z t : ℕ)
    → l.start_free ≡ head_or 0 (xs ++ (b, t) ∷ ys)
    → started from_free xs p l ≡ record l { start_free = head_or 0 (xs ++ (p, z) ∷ (b, t) ∷ ys) }
started-front l [] ys p b z t h = refl
started-front l (x ∷ xs) ys p b z t h = ap (λ q. record l { start_free = q }) h

pub write_self : (c : Ptr → Option Node) (p : Ptr) (m : Node) → write c p m p ≡ some m
write_self c p m = rw (eq→== p p refl)

-- The three writes to the block and to the one behind it.
abbrev writes : (Ptr → Option Node) → (p : Ptr) → Node → (b : Ptr) → Node → Node → Ptr → Option Node
writes c p m1 b n m2 = write (write (write c p m1) b n) p m2

frame-writes :
    (c : Ptr → Option Node) (prev next p b : Ptr) (m1 n m2 : Node) (xs : BlockList)
    → Seg c prev xs next
    → has p xs ≡ false
    → has b xs ≡ false
    → Seg (writes c p m1 b n m2) prev xs next
frame-writes c prev next p b m1 n m2 xs h out_p out_b =
    frame-write (write (write c p m1) b n) prev next p m2 xs
      (frame-write (write c p m1) prev next b n xs (frame-write c prev next p m1 xs h out_p) out_b)
      out_p

Disjoint-behind :
    (xs ys : BlockList) (b : Ptr) (t : ℕ) (q : Ptr)
    → Disjoint xs ((b, t) ∷ ys)
    → has q ys ≡ true
    → has q xs ≡ false
Disjoint-behind xs ys b t q apart i = ground (arith, apart q)

placed-Seg :
    (c : Ptr → Option Node) (xs ys : BlockList) (b : Ptr) (t : ℕ) (p : Ptr) (z : ℕ) (m1 : Node)
    → Seg c 0 xs p
    → Seg c b ys 0
    → Disjoint xs ((b, t) ∷ ys)
    → b ≢ 0
    → p ≢ 0
    → p ≢ b
    → has b ys ≡ false
    → has p xs ≡ false
    → has p ys ≡ false
    → has b xs ≡ false
    → Seg
        (writes c p m1 b (node t (head_or 0 ys) p) (node z b (last_or 0 xs)))
        0
        (xs ++ (p, z) ∷ (b, t) ∷ ys)
        0
placed-Seg c xs ys b t p z m1 left right apart b0 p0 pb b_ys p_xs p_ys b_xs =
    let n = node t (head_or 0 ys) p in
    let m2 = node z b (last_or 0 xs) in
    let c2 = write (write c p m1) b n in
    join (writes c p m1 b n m2) 0 0 xs ((p, z) ∷ (b, t) ∷ ys)
      (frame-writes c 0 p p b m1 n m2 xs left p_xs b_xs)
      (
        p0,
        write_self c2 p m2,
        ground (arith, p_ys),
        (
          b0,
          write-ne c2 p b m2 (λ e. pb (sym e)) ∙ write_self (write c p m1) b n,
          b_ys,
          frame-writes c b 0 p b m1 n m2 ys right p_ys b_ys,
        ),
      )
      (λ q i. ground (arith, apart q i, ne-has q p xs i p_xs))

module _ (s : State) (xs ys : BlockList) (b : Ptr) (t : ℕ) (p : Ptr) (m : Node)
    (h : Seg s.cell 0 (xs ++ (b, t) ∷ ys) 0)
    (start : s.list.start_free ≡ head_or 0 (xs ++ (b, t) ∷ ys)) (ne : p ≢ 0)
    (at : s.cell p ≡ some m) (out : has p (xs ++ (b, t) ∷ ys) ≡ false) where
  outside :
      (q : Ptr)
      → has q (xs ++ (b, t) ∷ ys) ≡ false
      → (has q xs ≡ false) × (q ≢ b) × (has q ys ≡ false)
  outside q o = ground (arith, has-append q xs ((b, t) ∷ ys))

  link_before-Inserted :
      (s' : State) × (link_before b p s ≡ some (tt, s'))
      × Inserted s (xs ++ (b, t) ∷ ys) (xs ++ (p, m.size) ∷ (b, t) ∷ ys) p s'
  unfolding link_before
  link_before-Inserted =
      let (left, (ne_b, at_b, out_b, right), apart) = split s.cell 0 0 xs ((b, t) ∷ ys) h in
      let (p_xs, p_b, p_ys) = outside p out in
      let b_xs = (middle-once s.cell b t xs ys h).2 in
      let (c, run, seg, same) = relink_prev from_free s xs b p left in
      let l = last_or 0 xs in
      let l' = started from_free xs p s.list in
      let at_c : c b ≡ some (node t (head_or 0 ys) l) = same b b_xs ∙ at_b in
      let m1 : Node = record m { prev = l } in
      let c1 = write c p m1 in
      let at_1 = write-ne c p b m1 (λ e. p_b (sym e)) ∙ at_c in
      let n = node t (head_or 0 ys) p in
      let c2 = write c1 b n in
      let at_2 = write-ne c1 b p n p_b ∙ write_self c p m1 in
      let m2 = node m.size b l in
      let right' = frame b 0 ys right (λ q i. same q (Disjoint-behind xs ys b t q apart i)) in
      (
        with_both s (write c2 p m2) l',
        rw (
          load-ok b (node t (head_or 0 ys) l) s ne_b at_b,
          run,
          load-ok b (node t (head_or 0 ys) l) (with_both s c l') ne_b at_c,
          set_prev-ok p l m (with_both s c l') ne (same p p_xs ∙ at),
          set_prev-ok b p (node t (head_or 0 ys) l) (with_both s c1 l') ne_b at_1,
          set_next-ok p b m1 (with_both s c2 l') ne at_2,
        ),
        record {
          list = started-front s.list xs ys p b m.size t start;
          seg =
              placed-Seg c xs ys b t p m.size m1 seg right' apart ne_b ne p_b out_b p_xs p_ys b_xs;
          same = λ q o e.
              let (q_xs, q_b, q_ys) = outside q o in
              write-ne c2 p q m2 e ∙ write-ne c1 b q n q_b ∙ write-ne c p q m1 e ∙ same q q_xs;
        },
      )

-- The write behind the last block, whatever stands before it.
link_last-Inserted :
    (s : State) (xs : BlockList) (b : Ptr) (t : ℕ) (p : Ptr) (m : Node)
    → Seg s.cell 0 (xs ++ (b, t) ∷ []) 0
    → s.list.start_free ≡ head_or 0 (xs ++ (b, t) ∷ [])
    → p ≢ 0
    → s.cell p ≡ some m
    → has p (xs ++ (b, t) ∷ []) ≡ false
    → (s' : State) × (link_last b p s ≡ some (tt, s'))
      × Inserted s (xs ++ (b, t) ∷ []) (xs ++ (b, t) ∷ (p, m.size) ∷ []) p s'
link_last-Inserted s [] b t p m h start ne at out =
    let (d, run, seg, same) = link_last-Seg b t [] p m s h ne at out in
    (
      with_cell s d,
      run,
      record { list = ap (λ q. record (s.list) { start_free = q }) start; seg = seg; same = same },
    )
link_last-Inserted s ((a, z) ∷ xs) b t p m h start ne at out =
    let (d, run, seg, same) = link_last-Seg a z (xs ++ (b, t) ∷ []) p m s h ne at out in
    let e : last_or a (xs ++ (b, t) ∷ []) ≡ b = last_or-append a xs ((b, t) ∷ []) in
    (
      with_cell s d,
      (rw e at run),
      record {
        list = ap (λ q. record (s.list) { start_free = q }) start;
        seg = (rw (append_assoc xs ((b, t) ∷ []) ((p, m.size) ∷ [])) at seg);
        same = same;
      },
    )

insert_free-larger :
    (ys : BlockList) (fuel : ℕ) (s : State) (xs : BlockList) (b : Ptr) (t : ℕ) (p : Ptr) (m : Node)
    → Seg s.cell 0 (xs ++ (b, t) ∷ ys) 0
    → s.list.start_free ≡ head_or 0 (xs ++ (b, t) ∷ ys)
    → p ≢ 0
    → s.cell p ≡ some m
    → has p (xs ++ (b, t) ∷ ys) ≡ false
    → ltb m.size t ≡ true
    → (s' : State) × (insert_free (suc fuel) m.size b p s ≡ some (tt, s'))
      × Inserted s (xs ++ (b, t) ∷ ys) (xs ++ insert_block p m.size ((b, t) ∷ ys)) p s'
unfolding insert_free
insert_free-larger ys fuel s xs b t p m h start ne at out larger =
    let (ne_b, at_b, o1, o2) = middle-once s.cell b t xs ys h in
    let (s', run, i) = link_before-Inserted s xs ys b t p m h start ne at out in
    (s', rw (load-ok b (node t (head_or 0 ys) (last_or 0 xs)) s ne_b at_b, larger) run, rw larger i)

insert_free-Inserted :
    (ys : BlockList) (fuel : ℕ) (s : State) (xs : BlockList) (b : Ptr) (t : ℕ) (p : Ptr) (m : Node)
    → Seg s.cell 0 (xs ++ (b, t) ∷ ys) 0
    → s.list.start_free ≡ head_or 0 (xs ++ (b, t) ∷ ys)
    → p ≢ 0
    → s.cell p ≡ some m
    → has p (xs ++ (b, t) ∷ ys) ≡ false
    → length ys < fuel
    → (s' : State) × (insert_free fuel m.size b p s ≡ some (tt, s'))
      × Inserted s (xs ++ (b, t) ∷ ys) (xs ++ insert_block p m.size ((b, t) ∷ ys)) p s'
unfolding insert_free
insert_free-Inserted ys zero s xs b t p m h start ne at out lt = absurd (omega arith)
insert_free-Inserted [] (suc fuel) s xs b t p m h start ne at out lt =
    elim (Bool-cases (ltb m.size t)) [
      | inl larger ↦ insert_free-larger [] fuel s xs b t p m h start ne at out larger
      | inr smaller ↦
          (let (ne_b, at_b, o1, o2) = middle-once s.cell b t xs [] h in
            let (s', run, i) = link_last-Inserted s xs b t p m h start ne at out in
            (s', rw (load-ok b (node t 0 (last_or 0 xs)) s ne_b at_b, smaller) run, rw smaller i))
    ]
insert_free-Inserted ((c, u) ∷ ys) (suc fuel) s xs b t p m h start ne at out lt =
    elim (Bool-cases (ltb m.size t)) [
      | inl larger ↦ insert_free-larger ((c, u) ∷ ys) fuel s xs b t p m h start ne at out larger
      | inr smaller ↦
          (let (ne_b, at_b, o1, o2) = middle-once s.cell b t xs ((c, u) ∷ ys) h in
            let c0 : c ≢ 0 = (split s.cell 0 0 xs ((b, t) ∷ (c, u) ∷ ys) h).1.3.0 in
            let assoc = append_assoc xs ((b, t) ∷ []) ((c, u) ∷ ys) in
            let whole = append_assoc xs ((b, t) ∷ []) (insert_block p m.size ((c, u) ∷ ys)) in
            let (s', run, i) =
              insert_free-Inserted ys fuel s (xs ++ (b, t) ∷ []) c u p m (rw assoc h)
                (rw assoc start) ne at (rw assoc out) (omega arith) in
            (
              s',
              rw (load-ok b (node t c (last_or 0 xs)) s ne_b at_b, smaller, ne→== c 0 c0) run,
              rw smaller (rw (assoc, whole) at i),
            ))
    ]

-- `add_to_free` of a block that is not on the free list never faults: it puts the block in front of
-- the first larger one, or at the end, and changes no other block.
pub add_to_free-Inserted :
    (fuel : ℕ) (s : State) (free : BlockList) (p : Ptr) (m : Node)
    → Seg s.cell 0 free 0
    → s.list.start_free ≡ head_or 0 free
    → p ≢ 0
    → s.cell p ≡ some m
    → has p free ≡ false
    → length free ≤ fuel
    → (s' : State) × (add_to_free fuel p s ≡ some (tt, s'))
      × Inserted s free (insert_block p m.size free) p s'
unfolding add_to_free
add_to_free-Inserted fuel s [] p m h start ne at out le =
    let s1 : State = record s { list = record (s.list) { start_free = p } } in
    let (d, run, seg, same) = alone-Seg p m s1 ne at in
    (
      with_cell s1 d,
      rw (eq→== s.list.start_free 0 start) run,
      record { list = refl; seg = seg; same = same },
    )
add_to_free-Inserted fuel s ((b, t) ∷ ys) p m h start ne at out le =
    let (s', run, i) = insert_free-Inserted ys fuel s [] b t p m h start ne at out (omega arith) in
    let some_free : (s.list.start_free == 0) ≡ false =
      ne→== s.list.start_free 0 (λ e. h.0 (sym start ∙ e)) in
    let walk : insert_free fuel m.size s.list.start_free p s ≡ some (tt, s') =
      ap (λ q. insert_free fuel m.size q p s) start ∙ run in
    (s', rw (some_free, load-ok p m s ne at, walk), i)
