-- ===== src/Mm/Blocks/Fit.antt =====
-- `get_free` where a free block fits: first fit, with what is left over cut off.
use yanix.Common.{
  ℕ, zero, suc, ◌+◌, ◌-◌, ◌%◌, ◌^◌, ◌≤◌, ◌<◌, ◌≡◌, refl, sym, ap, ◌∙◌, true, false, Option, some,
  [], ◌∷◌, ◌++◌, arith, ltb, if◌then◌else◌, length, lt→ltb, le→ltb, le→leb, lt→leb, ne→==, eq→==,
  length-append,
}
use native.Mathlib.Decide.{ℕ_discrete, dec_lt}
use yanix.Mm.Blocks.{Ptr, Node, LinkedList, State, write, set_size}
use yanix.Mm.Blocks.Requests.{get_free, find_block, perfect_fit, split_fit}
use yanix.Mm.Blocks.Segments.{
  BlockList, node, head_or, last_or, has, Seg, frame, frame-write, split, join, has-append, ne-has,
  write-ne,
}
use yanix.Mm.Blocks.Links.{load-ok, store-ok, with_cell}
use yanix.Mm.Blocks.Release.{Lists, middle-once, mark_used-Lists, outside-middle}
use yanix.Mm.Blocks.Insert.{insert_block, Inserted, add_to_free-Inserted, write_self}
use yanix.Mm.Blocks.Free.{Disjoint-other, Disjoint-insert_block}

-- Every block is smaller than `n` bytes.
abbrev pub Small : ℕ → BlockList → Type 0
Small n [] = Unit {0}
Small n ((a, z) ∷ xs) = (z < n) × Small n xs

find_block-first :
    (xs : BlockList) (fuel : ℕ) (s : State) (prev a : Ptr) (t n : ℕ) (ys : BlockList)
    → Seg s.cell prev (xs ++ (a, t) ∷ ys) 0
    → Small n xs
    → n ≤ t
    → length xs < fuel
    → find_block fuel n false (head_or 0 (xs ++ (a, t) ∷ ys)) s ≡ some (a, s)
unfolding find_block
find_block-first xs zero s prev a t n ys h small fits lt = absurd (omega arith)
find_block-first [] (suc fuel) s prev a t n ys (ne, at, out, rest) small fits lt =
    rw (ne→== a 0 ne, load-ok a (node t (head_or 0 ys) prev) s ne at, le→leb n t fits) refl
find_block-first ((b, u) ∷ xs) (suc fuel) s prev a t n ys (ne, at, out, rest) (lt', small) fits lt =
    rw
      (
        ne→== b 0 ne,
        load-ok b (node u (head_or 0 (xs ++ (a, t) ∷ ys)) prev) s ne at,
        lt→leb n u lt',
      )
      (find_block-first xs fuel s b a t n ys rest small fits (omega arith))

-- A segment after the size of a block is set.
resize :
    (c : Ptr → Option Node) (xs ys : BlockList) (a : Ptr) (t n : ℕ)
    → Seg c 0 (xs ++ (a, t) ∷ ys) 0
    → Seg (write c a (node n (head_or 0 ys) (last_or 0 xs))) 0 (xs ++ (a, n) ∷ ys) 0
resize c xs ys a t n h =
    let (left, (ne, at, out, right), apart) = split c 0 0 xs ((a, t) ∷ ys) h in
    let m = node n (head_or 0 ys) (last_or 0 xs) in
    let o = (middle-once c a t xs ys h).2 in
    join (write c a m) 0 0 xs ((a, n) ∷ ys) (frame-write c 0 a a m xs left o)
      (ne, write_self c a m, out, frame-write c a 0 a m ys right out) apart

has-resize :
    (q a : Ptr) (t n : ℕ) (xs ys : BlockList)
    → has q (xs ++ (a, n) ∷ ys) ≡ has q (xs ++ (a, t) ∷ ys)
has-resize q a t n xs ys = has-append q xs ((a, n) ∷ ys) ∙ sym (has-append q xs ((a, t) ∷ ys))

head-resize :
    (a : Ptr) (t n : ℕ) (xs ys : BlockList)
    → head_or 0 (xs ++ (a, t) ∷ ys) ≡ head_or 0 (xs ++ (a, n) ∷ ys)
head-resize a t n [] ys = refl
head-resize a t n (x ∷ xs) ys = refl

has-middle : (a : Ptr) (t : ℕ) (xs ys : BlockList) → has a (xs ++ (a, t) ∷ ys) ≡ true
has-middle a t xs ys = ground (arith, has-append a xs ((a, t) ∷ ys))

-- The lists after the header of a block to come is written at `q`, and the size of block `a` is set.
Lists-resize :
    (s : State) (used xs ys : BlockList) (a q : Ptr) (t n : ℕ) (m : Node)
    → Lists s used (xs ++ (a, t) ∷ ys)
    → has q used ≡ false
    → has q (xs ++ (a, t) ∷ ys) ≡ false
    → Lists
        (with_cell s (write (write s.cell q m) a (node n (head_or 0 ys) (last_or 0 xs))))
        used
        (xs ++ (a, n) ∷ ys)
Lists-resize s used xs ys a q t n m h out_used out_free =
    let c1 = write s.cell q m in
    let a_used = Disjoint-other used (xs ++ (a, t) ∷ ys) a h.apart (has-middle a t xs ys) in
    record {
      start_used = h.start_used;
      used_seg =
          frame-write c1 0 0 a (node n (head_or 0 ys) (last_or 0 xs)) used
            (frame-write s.cell 0 0 q m used h.used_seg out_used) a_used;
      start_free = h.start_free ∙ head-resize a t n xs ys;
      free_seg =
          resize c1 xs ys a t n
            (frame-write s.cell 0 0 q m (xs ++ (a, t) ∷ ys) h.free_seg out_free);
      apart = λ b i. has-resize b a t n xs ys ∙ h.apart b i;
    }

-- A new free block keeps the lists apart.
pub Lists-Inserted :
    (s s' : State) (used free : BlockList) (p : Ptr) (z : ℕ)
    → Lists s used free
    → has p used ≡ false
    → Inserted s free (insert_block p z free) p s'
    → Lists s' used (insert_block p z free)
Lists-Inserted s s' used free p z h out c = record {
  start_used = ap (λ (l : LinkedList). l.start_used) c.list ∙ h.start_used;
  used_seg =
      frame 0 0 used h.used_seg
        (λ b i. c.same b (h.apart b i) (λ e. ne-has b p used i out (sym e)));
  start_free = ap (λ (l : LinkedList). l.start_free) c.list;
  free_seg = c.seg;
  apart = Disjoint-insert_block used free p z h.apart out;
}

-- What `get_free` leaves for a request of `n` bytes that the block `a` of `t` bytes serves.
pub data Fitted (used xs ys : BlockList) (a : Ptr) (t n : ℕ) (s : State) : Type 0 where
  whole : t < n + 44 → Lists s (used ++ (a, t) ∷ []) (xs ++ ys) → Fitted used xs ys a t n s
  cut :
      n + 44 ≤ t
      → Lists s (used ++ (a, n) ∷ []) (insert_block (a + n + 12) (t - n - 12) (xs ++ ys))
      → Fitted used xs ys a t n s

module _ (fuel : ℕ) (s : State) (used xs ys : BlockList) (a : Ptr) (t n : ℕ)
    (h : Lists s used (xs ++ (a, t) ∷ ys)) (fits : n ≤ t) (bound : a + t < 2 ^ 32)
    (lt : length used < fuel) (le : length (xs ++ (a, t) ∷ ys) ≤ fuel) where
  perfect-Fitted :
      t ≡ n → (s' : State) × (perfect_fit fuel a s ≡ some (a, s')) × Fitted used xs ys a t n s'
  unfolding perfect_fit
  perfect-Fitted e =
      let (s', run, l, same) = mark_used-Lists fuel s used xs ys a t h lt in
      (s', rw run refl, whole (omega arith) l)

  split-whole :
      t < n + 44 → (s' : State) × (split_fit fuel n a s ≡ some (a, s')) × Fitted used xs ys a t n s'
  unfolding split_fit
  split-whole small =
      let (ne, at, o1, o2) = middle-once s.cell a t xs ys h.free_seg in
      let (s', run, l, same) = mark_used-Lists fuel s used xs ys a t h lt in
      (
        s',
        rw
            (
              load-ok a (node t (head_or 0 ys) (last_or 0 xs)) s ne at,
              lt→ltb ((t + 2 ^ 32 - n) % 2 ^ 32) 44 (omega arith),
              run,
            )
            refl,
        whole small l,
      )

  split-cut :
      n + 44 ≤ t
      → has (a + n + 12) used ≡ false
      → has (a + n + 12) (xs ++ (a, t) ∷ ys) ≡ false
      → (s' : State) × (split_fit fuel n a s ≡ some (a, s')) × Fitted used xs ys a t n s'
  unfolding split_fit set_size
  split-cut large q_used q_free =
      let (ne, at, o1, o2) = middle-once s.cell a t xs ys h.free_seg in
      let q : Ptr = a + n + 12 in
      let na = node t (head_or 0 ys) (last_or 0 xs) in
      let mq = node (t - n - 12) 0 0 in
      let qa = outside-middle q a t xs ys q_free in
      let c1 = write s.cell q mq in
      let at1 = write-ne s.cell q a mq (λ e. qa.1 (sym e)) ∙ at in
      let c2 = write c1 a (node n (head_or 0 ys) (last_or 0 xs)) in
      let s2 = with_cell s c2 in
      let l2 = Lists-resize s used xs ys a q t n mq h q_used q_free in
      let (s3, run3, l3, same) = mark_used-Lists fuel s2 used xs ys a n l2 lt in
      let at3 =
        same q q_used (has-resize q a t n xs ys ∙ q_free)
        ∙ write-ne c1 a q (node n (head_or 0 ys) (last_or 0 xs)) qa.1
        ∙ write_self s.cell q mq in
      let short : length (xs ++ ys) ≤ fuel =
        omega (arith, length-append xs ys, length-append xs ((a, t) ∷ ys)) in
      let (s4, run4, i) =
        add_to_free-Inserted fuel s3 (xs ++ ys) q mq l3.free_seg l3.start_free (omega arith) at3
          qa.3 short in
      let fresh : has q (used ++ (a, n) ∷ []) ≡ false =
        has-append q used ((a, n) ∷ []) ∙ ground (arith, qa.1) in
      let at_q : (a + n + 12) % 2 ^ 32 ≡ q = omega arith in
      let left : (t + 2 ^ 32 - (n + 12) % 2 ^ 32) % 2 ^ 32 ≡ t - n - 12 = omega arith in
      (
        s4,
        rw
            (
              load-ok a na s ne at,
              le→ltb ((t + 2 ^ 32 - n) % 2 ^ 32) 44 (omega arith),
              at_q,
              left,
              store-ok q mq s (omega arith),
              load-ok a na (with_cell s c1) ne at1,
              store-ok a (node n (head_or 0 ys) (last_or 0 xs)) (with_cell s c1) ne,
              run3,
              run4,
            )
            refl,
        cut large (Lists-Inserted s3 s4 (used ++ (a, n) ∷ []) (xs ++ ys) q (t - n - 12) l3 fresh i),
      )

  split-Fitted :
      has (a + n + 12) used ≡ false
      → has (a + n + 12) (xs ++ (a, t) ∷ ys) ≡ false
      → (s' : State) × (split_fit fuel n a s ≡ some (a, s')) × Fitted used xs ys a t n s'
  split-Fitted q_used q_free = elim (dec_lt t (n + 44)) [
    | yes little ↦ split-whole little
    | no much ↦ split-cut (omega arith) q_used q_free
  ]

  -- `get_free` of an unaligned request that some free block can hold never faults, with enough fuel
  -- for both lists: it takes the first block that is large enough, for 32 bytes where less is
  -- asked, and puts it at the end of the used list. Where at least 44 bytes are over, they become a
  -- free block of their own, in its place by size. The address of that block is taken to be no
  -- block of the lists.
  pub get_free-Fitted :
      (request : ℕ)
      → (if ltb request 32 then 32 else request) ≡ n
      → Small n xs
      → has (a + n + 12) used ≡ false
      → has (a + n + 12) (xs ++ (a, t) ∷ ys) ≡ false
      → (s' : State) × (get_free fuel request false s ≡ some (a, s')) × Fitted used xs ys a t n s'
  unfolding get_free
  get_free-Fitted request size small q_used q_free =
      let (ne, at, o1, o2) = middle-once s.cell a t xs ys h.free_seg in
      let found : find_block fuel n false s.list.start_free s ≡ some (a, s) =
        ap (λ q. find_block fuel n false q s) h.start_free
        ∙ find_block-first xs fuel s 0 a t n ys h.free_seg small fits
            (omega (arith, length-append xs ((a, t) ∷ ys))) in
      elim (ℕ_discrete t n) [
        | yes same ↦
            (let (s', run, f) = perfect-Fitted same in
              (
                s',
                rw
                    (
                      size,
                      found,
                      ne→== a 0 ne,
                      load-ok a (node t (head_or 0 ys) (last_or 0 xs)) s ne at,
                      eq→== t n same,
                    )
                    run,
                f,
              ))
        | no other ↦
            (let (s', run, f) = split-Fitted q_used q_free in
              (
                s',
                rw
                    (
                      size,
                      found,
                      ne→== a 0 ne,
                      load-ok a (node t (head_or 0 ys) (last_or 0 xs)) s ne at,
                      ne→== t n other,
                    )
                    run,
                f,
              ))
      ]
