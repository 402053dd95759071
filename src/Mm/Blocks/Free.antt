-- ===== src/Mm/Blocks/Free.antt =====
-- `free_node`: it gives back the blocks that are in use, and no others.
use yanix.Common.{
  ℕ, zero, suc, ◌≤◌, ◌<◌, ◌≡◌, ◌≢◌, refl, sym, ap, ◌∙◌, true, false, ◌||◌, some, [], ◌∷◌, ◌++◌,
  arith, ◌==◌, length, ne→==, eq→==,
}
use native.Mathlib.Decide.{ℕ_discrete}
use yanix.Common.Int.{pos, negsuc}
use yanix.Mm.Blocks.{Ptr, LinkedList, State, mark_free, efault}
use yanix.Mm.Blocks.Requests.{on_list, free_node}
use yanix.Mm.Blocks.Segments.{
  BlockList, node, head_or, last_or, has, Seg, Disjoint, frame, has-append, ne-has,
}
use yanix.Mm.Blocks.Links.{load-ok}
use yanix.Mm.Blocks.Release.{
  Lists, started, with_both, release-Seg, middle-once, outside-middle, inside-rest,
}
use yanix.Mm.Blocks.Insert.{insert_block, add_to_free-Inserted}

abbrev from_used : LinkedList → Ptr → LinkedList
from_used l p = record l { start_used = p }

from_used-start_used :
    (l : LinkedList) (xs ys : BlockList) (a : Ptr) (z : ℕ)
    → l.start_used ≡ head_or 0 (xs ++ (a, z) ∷ ys)
    → (started from_used xs (head_or 0 ys) l).start_used ≡ head_or 0 (xs ++ ys)
from_used-start_used l [] ys a z h = refl
from_used-start_used l (x ∷ xs) ys a z h = h

from_used-start_free :
    (l : LinkedList) (xs : BlockList) (next : Ptr)
    → (started from_used xs next l).start_free ≡ l.start_free
from_used-start_free l [] next = refl
from_used-start_free l (x ∷ xs) next = refl

pub has-insert_block :
    (b a : Ptr) (z : ℕ) (xs : BlockList) → has b (insert_block a z xs) ≡ ((b == a) || has b xs)
has-insert_block b a z [] = refl
has-insert_block b a z ((c, t) ∷ xs) = ground (arith, has-insert_block b a z xs)

pub Disjoint-other :
    (xs ys : BlockList) (b : Ptr) → Disjoint xs ys → has b ys ≡ true → has b xs ≡ false
Disjoint-other xs ys b apart i = ground (arith, apart b)

pub Disjoint-insert_block :
    (xs ys : BlockList) (a : Ptr) (z : ℕ)
    → ((b : Ptr) → has b xs ≡ true → has b ys ≡ false)
    → has a xs ≡ false
    → Disjoint xs (insert_block a z ys)
Disjoint-insert_block xs ys a z apart out b i =
    let other : b ≢ a = λ e. ne-has b a xs i out (sym e) in
    has-insert_block b a z ys ∙ ground (arith, apart b i)

-- `mark_free` of a used block takes it out of the used list and puts it into the free list.
mark_free-Lists :
    (fuel : ℕ) (s : State) (xs ys free : BlockList) (a : Ptr) (z : ℕ)
    → Lists s (xs ++ (a, z) ∷ ys) free
    → length free ≤ fuel
    → (s' : State) × (mark_free fuel a s ≡ some (tt, s'))
      × Lists s' (xs ++ ys) (insert_block a z free)
unfolding mark_free
mark_free-Lists fuel s xs ys free a z h le =
    let (ne, at, o1, o2) = middle-once s.cell a z xs ys h.used_seg in
    let (d, run, seg, same) = release-Seg from_used s xs ys a z h.used_seg in
    let s1 = with_both s d (started from_used xs (head_or 0 ys) s.list) in
    let spared = λ (b : Ptr) (i : has b free ≡ true).
      outside-middle b a z xs ys (Disjoint-other (xs ++ (a, z) ∷ ys) free b h.apart i) in
    let free1 : Seg d 0 free 0 =
      frame 0 0 free h.free_seg (λ b i. same b (spared b i).0 (spared b i).2) in
    let gone : has a (xs ++ ys) ≡ false = ground (arith, has-append a xs ys) in
    let fresh : has a free ≡ false = h.apart a (ground (arith, has-append a xs ((a, z) ∷ ys))) in
    let (s', run', c) =
      add_to_free-Inserted fuel s1 free a (node z (head_or 0 ys) (last_or 0 xs)) free1
        (from_used-start_free s.list xs (head_or 0 ys) ∙ h.start_free) ne (same a o1 o2 ∙ at) fresh
        le in
    (
      s',
      rw run run',
      record {
        start_used =
            ap (λ (l : LinkedList). l.start_used) c.list
            ∙ from_used-start_used s.list xs ys a z h.start_used;
        used_seg = frame 0 0 (xs ++ ys) seg (λ b i.
            c.same b (h.apart b (inside-rest b a z xs ys i))
              (λ e. ne-has b a (xs ++ ys) i gone (sym e)));
        start_free = ap (λ (l : LinkedList). l.start_free) c.list;
        free_seg = c.seg;
        apart =
            Disjoint-insert_block (xs ++ ys) free a z (λ b i. h.apart b (inside-rest b a z xs ys i))
              gone;
      },
    )

on_list-has :
    (xs : BlockList) (fuel : ℕ) (s : State) (prev n : Ptr)
    → Seg s.cell prev xs 0
    → length xs < fuel
    → on_list fuel (head_or 0 xs) n s ≡ some (has n xs, s)
unfolding on_list
on_list-has xs zero s prev n h lt = absurd (omega arith)
on_list-has [] (suc fuel) s prev n h lt = refl
on_list-has ((a, z) ∷ xs) (suc fuel) s prev n (ne, at, out, rest) lt = elim (ℕ_discrete a n) [
  | yes here ↦ rw (ne→== a 0 ne, eq→== a n here, eq→== n a (sym here)) refl
  | no other ↦
      rw
        (
          ne→== a 0 ne,
          ne→== a n other,
          load-ok a (node z (head_or 0 xs) prev) s ne at,
          ne→== n a (λ e. other (sym e)),
        )
        (on_list-has xs fuel s a n rest (omega arith))
]

-- `free_node` of a block in use never faults and returns 0: the block leaves the used list and goes
-- into the free list in front of the first larger one; the other blocks keep their order and sizes.
pub free_node-Lists :
    (fuel : ℕ) (s : State) (xs ys free : BlockList) (a : Ptr) (z : ℕ)
    → Lists s (xs ++ (a, z) ∷ ys) free
    → length (xs ++ (a, z) ∷ ys) < fuel
    → length free ≤ fuel
    → (s' : State) × (free_node fuel a s ≡ some (pos 0, s'))
      × Lists s' (xs ++ ys) (insert_block a z free)
unfolding free_node
free_node-Lists fuel s xs ys free a z h lt le =
    let (s', run, l) = mark_free-Lists fuel s xs ys free a z h le in
    let inside : has a (xs ++ (a, z) ∷ ys) ≡ true = ground (arith, has-append a xs ((a, z) ∷ ys)) in
    let found : on_list fuel s.list.start_used a s ≡ some (true, s) =
      ap (λ q. on_list fuel q a s) h.start_used
      ∙ on_list-has (xs ++ (a, z) ∷ ys) fuel s 0 a h.used_seg lt
      ∙ ap (λ v. some (v, s)) inside in
    (s', rw (found, run), l)

-- `free_node` of an address that is no block in use, a block freed before included, never faults:
-- it returns -1 with EFAULT and changes neither list.
pub free_node-refuses :
    (fuel : ℕ) (s : State) (used free : BlockList) (a : Ptr)
    → Lists s used free
    → has a used ≡ false
    → length used < fuel
    → free_node fuel a s ≡ some (negsuc 0, record s { errno = some efault })
unfolding free_node
free_node-refuses fuel s used free a h out lt =
    let found : on_list fuel s.list.start_used a s ≡ some (false, s) =
      ap (λ q. on_list fuel q a s) h.start_used
      ∙ on_list-has used fuel s 0 a h.used_seg lt
      ∙ ap (λ v. some (v, s)) out in
    rw found
