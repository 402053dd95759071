-- ===== src/Mm/Blocks/Release.antt =====
-- `mark_used`: a block changes from the free list to the used list.
use yanix.Common.{
  ℕ, ◌<◌, ◌≡◌, ◌≢◌, refl, sym, ap, ◌∙◌, inl, inr, true, false, Option, some, [], ◌∷◌, ◌++◌, arith,
  ◌==◌, if◌then◌else◌, length, Bool-cases, ne→==, eq→==,
}
use yanix.Mm.Blocks.{
  Ptr, Node, LinkedList, State, Cmd, write, set_next, set_prev, release, add_to_used, mark_used,
  last_node, pure,
}
use yanix.Mm.Blocks.Segments.{
  BlockList, node, head_or, last_or, has, Seg, Disjoint, frame, split, join, has-append, has-last,
  ne-has, write-ne, relink_last, relink_first,
}
use yanix.Mm.Blocks.Links.{
  with_cell, load-ok, set_next-ok, set_prev-ok, last_node-last, alone-Seg, link_last-Seg, SameBut,
}

-- `list->start_used = p` or `list->start_free = p`, as `upd` says.
abbrev pub start_by : (LinkedList → Ptr → LinkedList) → Ptr → Cmd (Unit {0})
start_by upd p s = some (tt, record s { list = upd s.list p })

-- The list after a block between `xs` and the one at `next` is gone.
abbrev pub started : (LinkedList → Ptr → LinkedList) → BlockList → Ptr → LinkedList → LinkedList
started upd [] next l = upd l next
started upd (x ∷ xs) next l = l

abbrev pub with_both : State → (Ptr → Option Node) → LinkedList → State
with_both s c l = record s { cell = c; list = l }

-- The first half of a release: `prev->next = next`, or the start of the list.
pub relink_prev :
    (upd : LinkedList → Ptr → LinkedList) (s : State) (xs : BlockList) (a next : Ptr)
    → Seg s.cell 0 xs a
    → (d : Ptr → Option Node) × ((if last_or 0 xs == 0
            then start_by upd next
            else set_next (last_or 0 xs) next)
          s
        ≡ some (tt, with_both s d (started upd xs next s.list)))
      × Seg d 0 xs next
      × ((q : Ptr) → has q xs ≡ false → d q ≡ s.cell q)
relink_prev upd s [] a next h = (s.cell, refl, tt, λ q out. refl)
relink_prev upd s ((b, t) ∷ xs) a next h =
    let (n, ne, at, e, seg) = relink_last s.cell 0 a next b t xs h in
    let l : Ptr = last_or b xs in
    (
      write s.cell l (record n { next = next }),
      rw (ne→== l 0 ne) (set_next-ok l next n s ne at),
      seg,
      λ q out.
          write-ne s.cell l q (record n { next = next })
            (ne-has l q ((b, t) ∷ xs) (has-last b t xs) out),
    )

-- The second half: `next->prev = prev`, where there is a next block.
relink_next :
    (s : State) (a prev : Ptr) (ys : BlockList)
    → Seg s.cell a ys 0
    → (d : Ptr → Option Node) × ((if head_or 0 ys == 0
            then pure tt
            else set_prev (head_or 0 ys) prev)
          s
        ≡ some (tt, with_cell s d))
      × Seg d prev ys 0
      × ((q : Ptr) → has q ys ≡ false → d q ≡ s.cell q)
relink_next s a prev [] h = (s.cell, refl, tt, λ q out. refl)
relink_next s a prev ((b, t) ∷ ys) (ne, at, out, rest) = (
  write s.cell b (node t (head_or 0 ys) prev),
  rw (ne→== b 0 ne) (set_prev-ok b prev (node t (head_or 0 ys) a) s ne at),
  relink_first s.cell a prev 0 b t ys (ne, at, out, rest),
  λ q out'. ground arith,
)

-- A release takes the block out of its segment, and leaves the block itself as it was.
pub release-Seg :
    (upd : LinkedList → Ptr → LinkedList) (s : State) (xs ys : BlockList) (a : Ptr) (z : ℕ)
    → Seg s.cell 0 (xs ++ (a, z) ∷ ys) 0
    → (d : Ptr → Option Node) × (release (start_by upd) a s
        ≡ some (tt, with_both s d (started upd xs (head_or 0 ys) s.list)))
      × Seg d 0 (xs ++ ys) 0
      × ((q : Ptr) → has q xs ≡ false → has q ys ≡ false → d q ≡ s.cell q)
unfolding release
release-Seg upd s xs ys a z h =
    let (left, (ne, at, out, right), apart) = split s.cell 0 0 xs ((a, z) ∷ ys) h in
    let not_left : has a xs ≡ false = ground (arith, apart a) in
    let (c, run, seg, same) = relink_prev upd s xs a (head_or 0 ys) left in
    let s1 = with_both s c (started upd xs (head_or 0 ys) s.list) in
    let right' : Seg c a ys 0 = frame a 0 ys right (λ b i. same b (ground (arith, apart b))) in
    let (d, run', seg', same') = relink_next s1 a (last_or 0 xs) ys right' in
    let left' : Seg d 0 xs (head_or 0 ys) =
      frame 0 (head_or 0 ys) xs seg (λ b i. same' b (ground (arith, apart b))) in
    (
      d,
      rw
          (
            load-ok a (node z (head_or 0 ys) (last_or 0 xs)) s ne at,
            run,
            load-ok a (node z (head_or 0 ys) (last_or 0 xs)) s1 ne (same a not_left ∙ at),
          )
          run',
      join d 0 0 xs ys left' seg' (λ b i. ground (arith, apart b)),
      λ q o1 o2. same' q o2 ∙ same q o1,
    )

-- The used list and the free list, as blocks in order: linked both ways through memory, without a
-- block in common.
pub record Lists (s : State) (used free : BlockList) : Type 0 where
  pub start_used : s.list.start_used ≡ head_or 0 used
  pub used_seg : Seg s.cell 0 used 0
  pub start_free : s.list.start_free ≡ head_or 0 free
  pub free_seg : Seg s.cell 0 free 0
  pub apart : Disjoint used free

-- What appending the block `p` to the used list does.
pub record Appended (s : State) (used : BlockList) (p : Ptr) (z : ℕ) (s' : State) : Type 0 where
  pub list : s'.list ≡ record (s.list) { start_used = head_or 0 (used ++ (p, z) ∷ []) }
  pub seg : Seg s'.cell 0 (used ++ (p, z) ∷ []) 0
  pub same : SameBut used p s.cell s'.cell

pub add_to_used-Appended :
    (fuel : ℕ) (s : State) (used : BlockList) (p : Ptr) (m : Node)
    → Seg s.cell 0 used 0
    → s.list.start_used ≡ head_or 0 used
    → p ≢ 0
    → s.cell p ≡ some m
    → has p used ≡ false
    → length used < fuel
    → (s' : State) × (add_to_used fuel p s ≡ some (tt, s')) × Appended s used p m.size s'
unfolding add_to_used
add_to_used-Appended fuel s [] p m h start ne at out lt =
    let s1 : State = record s { list = record (s.list) { start_used = p } } in
    let (d, run, seg, same) = alone-Seg p m s1 ne at in
    (
      with_cell s1 d,
      rw (eq→== s.list.start_used 0 start) run,
      record { list = refl; seg = seg; same = same },
    )
add_to_used-Appended fuel s ((a, z) ∷ xs) p m h start ne at out lt =
    let (d, run, seg, same) = link_last-Seg a z xs p m s h ne at out in
    let some_used : (s.list.start_used == 0) ≡ false =
      ne→== s.list.start_used 0 (λ e. h.0 (sym start ∙ e)) in
    let walk : last_node fuel s.list.start_used s ≡ some (last_or a xs, s) =
      ap (λ q. last_node fuel q s) start ∙ last_node-last fuel 0 a z xs s h (omega arith) in
    (
      with_cell s d,
      rw (some_used, walk) run,
      record { list = ap (λ q. record (s.list) { start_used = q }) start; seg = seg; same = same },
    )

pub outside-middle :
    (b a : Ptr) (z : ℕ) (xs ys : BlockList)
    → has b (xs ++ (a, z) ∷ ys) ≡ false
    → (has b xs ≡ false) × (b ≢ a) × (has b ys ≡ false) × (has b (xs ++ ys) ≡ false)
outside-middle b a z xs ys h = ground (arith, has-append b xs ((a, z) ∷ ys), has-append b xs ys)

pub inside-rest :
    (b a : Ptr) (z : ℕ) (xs ys : BlockList)
    → has b (xs ++ ys) ≡ true
    → has b (xs ++ (a, z) ∷ ys) ≡ true
inside-rest b a z xs ys h = ground (arith, has-append b xs ((a, z) ∷ ys), has-append b xs ys)

-- The block between two parts of a segment is in neither.
pub middle-once :
    (c : Ptr → Option Node) (a : Ptr) (z : ℕ) (xs ys : BlockList)
    → Seg c 0 (xs ++ (a, z) ∷ ys) 0
    → (a ≢ 0)
      × (c a ≡ some (node z (head_or 0 ys) (last_or 0 xs)))
      × (has a xs ≡ false)
      × (has a ys ≡ false)
middle-once c a z xs ys h =
    let (left, (ne, at, out, right), apart) = split c 0 0 xs ((a, z) ∷ ys) h in
    (ne, at, ground (arith, apart a), out)

last_is :
    (b a : Ptr) (z : ℕ) (xs : BlockList)
    → has b (xs ++ (a, z) ∷ []) ≡ true
    → has b xs ≡ false
    → b ≡ a
last_is b a z xs i out = ground (arith, has-append b xs ((a, z) ∷ []))

pub Disjoint-append :
    (xs ys : BlockList) (a : Ptr) (z : ℕ)
    → Disjoint xs ys
    → has a ys ≡ false
    → Disjoint (xs ++ (a, z) ∷ []) ys
Disjoint-append xs ys a z apart out b i = elim (Bool-cases (has b xs)) [
  | inl inside ↦ apart b inside
  | inr outside ↦ ap (λ q. has q ys) (last_is b a z xs i outside) ∙ out
]

abbrev pub from_free : LinkedList → Ptr → LinkedList
from_free l p = record l { start_free = p }

from_free-start_free :
    (l : LinkedList) (xs ys : BlockList) (a : Ptr) (z : ℕ)
    → l.start_free ≡ head_or 0 (xs ++ (a, z) ∷ ys)
    → (started from_free xs (head_or 0 ys) l).start_free ≡ head_or 0 (xs ++ ys)
from_free-start_free l [] ys a z h = refl
from_free-start_free l (x ∷ xs) ys a z h = h

from_free-start_used :
    (l : LinkedList) (xs : BlockList) (next : Ptr)
    → (started from_free xs next l).start_used ≡ l.start_used
from_free-start_used l [] next = refl
from_free-start_used l (x ∷ xs) next = refl

-- `mark_used` of a free block never faults: it takes the block out of the free list and puts it at
-- the end of the used list; the other blocks keep their order and their sizes, and memory outside
-- the blocks is as it was.
pub mark_used-Lists :
    (fuel : ℕ) (s : State) (used xs ys : BlockList) (a : Ptr) (z : ℕ)
    → Lists s used (xs ++ (a, z) ∷ ys)
    → length used < fuel
    → (s' : State) × (mark_used fuel a s ≡ some (tt, s'))
      × Lists s' (used ++ (a, z) ∷ []) (xs ++ ys)
      × ((q : Ptr) → has q used ≡ false → has q (xs ++ (a, z) ∷ ys) ≡ false → s'.cell q ≡ s.cell q)
unfolding mark_used
mark_used-Lists fuel s used xs ys a z h lt =
    let (ne, at, o1, o2) = middle-once s.cell a z xs ys h.free_seg in
    let (d, run, seg, same) = release-Seg from_free s xs ys a z h.free_seg in
    let s1 = with_both s d (started from_free xs (head_or 0 ys) s.list) in
    let clear = λ (b : Ptr) (i : has b used ≡ true). outside-middle b a z xs ys (h.apart b i) in
    let used1 : Seg d 0 used 0 =
      frame 0 0 used h.used_seg (λ b i. same b (clear b i).0 (clear b i).2) in
    let gone : has a (xs ++ ys) ≡ false = ground (arith, has-append a xs ys) in
    let fresh : has a used ≡ false = ground (arith, clear a) in
    let (s', run', c) =
      add_to_used-Appended fuel s1 used a (node z (head_or 0 ys) (last_or 0 xs)) used1
        (from_free-start_used s.list xs (head_or 0 ys) ∙ h.start_used) ne (same a o1 o2 ∙ at) fresh
        lt in
    (
      s',
      rw run run',
      record {
        start_used = ap (λ (l : LinkedList). l.start_used) c.list;
        used_seg = c.seg;
        start_free =
            ap (λ (l : LinkedList). l.start_free) c.list
            ∙ from_free-start_free s.list xs ys a z h.start_free;
        free_seg = frame 0 0 (xs ++ ys) seg (λ b i.
            c.same b (ground (arith, clear b, inside-rest b a z xs ys))
              (λ e. ne-has b a (xs ++ ys) i gone (sym e)));
        apart = Disjoint-append used (xs ++ ys) a z (λ b i. (clear b i).3) gone;
      },
      λ q o o'.
          let (q_xs, q_a, q_ys, r) = outside-middle q a z xs ys o' in
          c.same q o q_a ∙ same q q_xs q_ys,
    )
