-- ===== src/Mm/Blocks/Grow.antt =====
-- `get_free` where no free block fits: the heap grows, or there is no memory.
use yanix.Common.{
  ℕ, zero, suc, ◌+◌, ◌%◌, ◌^◌, ◌≤◌, ◌<◌, ◌≡◌, ◌≢◌, refl, sym, ap, ◌∙◌, true, false, none, some, [],
  ◌∷◌, ◌++◌, arith, ◌==◌, ltb, leb, if◌then◌else◌, length, le→leb, lt→leb, ne→==, eq→==,
}
use yanix.Mm.Blocks.{
  Ptr, LinkedList, State, load, write, add_to_used, set_prev, link_alone, link_last, last_node,
  enomem,
}
use yanix.Mm.Blocks.Requests.{get_free, find_block, expand_heap, expand_by}
use yanix.Mm.Blocks.Segments.{
  BlockList, node, head_or, last_or, has, Seg, frame, frame-write, ne-has, relink_last,
}
use yanix.Mm.Blocks.Links.{load-ok, store-ok, last_node-last, set_next-ok}
use yanix.Mm.Blocks.Release.{Lists, with_both, add_to_used-Appended, Disjoint-append}
use yanix.Mm.Blocks.Insert.{write_self}
use yanix.Mm.Blocks.Fit.{Small}
use yanix.Mm.Blocks.Free.{Disjoint-other}

find_block-none :
    (xs : BlockList) (fuel : ℕ) (s : State) (prev n : ℕ)
    → Seg s.cell prev xs 0
    → Small n xs
    → length xs < fuel
    → find_block fuel n false (head_or 0 xs) s ≡ some (0, s)
unfolding find_block
find_block-none xs zero s prev n h small lt = absurd (omega arith)
find_block-none [] (suc fuel) s prev n h small lt = refl
find_block-none ((b, u) ∷ xs) (suc fuel) s prev n (ne, at, out, rest) (lt', small) lt =
    rw (ne→== b 0 ne, load-ok b (node u (head_or 0 xs) prev) s ne at, lt→leb n u lt')
      (find_block-none xs fuel s b n rest small (omega arith))

-- The null pointer cannot be put on the used list.
add_to_used-null :
    (fuel : ℕ) (s : State) (used : BlockList)
    → Seg s.cell 0 used 0
    → s.list.start_used ≡ head_or 0 used
    → length used < fuel
    → add_to_used fuel 0 s ≡ none
unfolding add_to_used link_alone link_last set_prev load
add_to_used-null fuel s [] h start lt = rw (eq→== s.list.start_used 0 start) refl
add_to_used-null fuel s ((a, z) ∷ xs) h start lt =
    let (m, ne, at, e, seg) = relink_last s.cell 0 0 0 a z xs h in
    let some_used : (s.list.start_used == 0) ≡ false =
      ne→== s.list.start_used 0 (λ e. h.0 (sym start ∙ e)) in
    let walk : last_node fuel s.list.start_used s ≡ some (last_or a xs, s) =
      ap (λ q. last_node fuel q s) start ∙ last_node-last fuel 0 a z xs s h (omega arith) in
    rw (some_used, walk, set_next-ok (last_or a xs) 0 m s ne at) refl

module _ (fuel : ℕ) (s : State) (used free : BlockList) (request n : ℕ)
    (size : (if ltb request 32 then 32 else request) ≡ n) (h : Lists s used free)
    (small : Small n free) (lt : length used < fuel) (le : length free < fuel)
    (bound : s.list.cursize + n + 12 < 2 ^ 32) where
  found : find_block fuel n false s.list.start_free s ≡ some (0, s)
  found =
      ap (λ q. find_block fuel n false q s) h.start_free
      ∙ find_block-none free fuel s 0 n h.free_seg small le

  -- `get_free` where no free block is large enough and the heap has room never faults: the block
  -- lies right at the end of the heap, which grows by just the block and its header, within the
  -- maximum; it is the last of the used list, and the free list is as it was. The end of the heap
  -- is taken to be no block.
  pub get_free-grows :
      (q : Ptr)
      → s.list.memstart + s.list.cursize ≡ q
      → q ≢ 0
      → q < 2 ^ 32
      → has q used ≡ false
      → has q free ≡ false
      → s.list.cursize + n + 12 ≤ s.list.maxsize
      → (s' : State) × (get_free fuel request false s ≡ some (q, s'))
        × Lists s' (used ++ (q, n) ∷ []) free
        × (s'.list.cursize ≡ s.list.cursize + n + 12)
        × (s'.list.cursize ≤ s'.list.maxsize)
  unfolding get_free expand_heap expand_by
  get_free-grows q end_is q0 q32 q_used q_free room =
      let m = node n 0 0 in
      let l1 : LinkedList = record (s.list) { cursize = s.list.cursize + n + 12 } in
      let s1 = with_both s (write s.cell q m) l1 in
      let used1 = frame-write s.cell 0 0 q m used h.used_seg q_used in
      let free1 = frame-write s.cell 0 0 q m free h.free_seg q_free in
      let (s', run, c) =
        add_to_used-Appended fuel s1 used q m used1 h.start_used q0 (write_self s.cell q m) q_used
          lt in
      let at_q : (s.list.memstart + s.list.cursize) % 2 ^ 32 ≡ q = omega arith in
      let fits : leb ((s.list.cursize + n + 12) % 2 ^ 32) s.list.maxsize ≡ true =
        le→leb _ _ (omega arith) in
      let grown : (s.list.cursize + (n + 12) % 2 ^ 32) % 2 ^ 32 ≡ s.list.cursize + n + 12 =
        omega arith in
      (
        s',
        rw (size, found, fits, at_q, store-ok q m s q0, grown, run) refl,
        record {
          start_used = ap (λ (l : LinkedList). l.start_used) c.list;
          used_seg = c.seg;
          start_free = ap (λ (l : LinkedList). l.start_free) c.list ∙ h.start_free;
          free_seg = frame 0 0 free free1 (λ b i.
              c.same b (Disjoint-other used free b h.apart i)
                (λ e. ne-has b q free i q_free (sym e)));
          apart = Disjoint-append used free q n h.apart q_free;
        },
        ap (λ (l : LinkedList). l.cursize) c.list,
        (let ec = ap (λ (l : LinkedList). l.cursize) c.list in
            let em = ap (λ (l : LinkedList). l.maxsize) c.list in omega (arith, ec, em)),
      )

  -- `get_free` where no free block is large enough and the heap may not grow writes through the
  -- null pointer: it faults, and returns no error.
  pub get_free-faults :
      s.list.maxsize < s.list.cursize + n + 12 → get_free fuel request false s ≡ none
  unfolding get_free expand_heap
  get_free-faults full =
      let short : leb ((s.list.cursize + n + 12) % 2 ^ 32) s.list.maxsize ≡ false =
        lt→leb _ _ (omega arith) in
      let stuck =
        add_to_used-null fuel (record s { errno = some enomem }) used h.used_seg h.start_used lt in
      rw (size, found, short, stuck) refl
