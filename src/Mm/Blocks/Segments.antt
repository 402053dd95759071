-- ===== src/Mm/Blocks/Segments.antt =====
-- Doubly linked segments: what the nodes in memory say of a list of blocks.
use yanix.Common.{
  ℕ, ◌≡◌, ◌≢◌, refl, ap, ◌∙◌, Bool, true, false, ◌||◌, Option, some, List, [], ◌∷◌, ◌++◌, arith,
  ◌==◌,
}
use yanix.Mm.Blocks.{Ptr, Node, write}

-- Address and size of each block, in the order of the list.
abbrev pub BlockList : Type 0
BlockList = List (Ptr × ℕ)

abbrev pub node : ℕ → Ptr → Ptr → Node
node size next prev = record { size = size; next = next; prev = prev }

abbrev pub head_or : Ptr → BlockList → Ptr
head_or d [] = d
head_or d ((a, s) ∷ xs) = a

abbrev pub last_or : Ptr → BlockList → Ptr
last_or d [] = d
last_or d ((a, s) ∷ xs) = last_or a xs

abbrev pub has : Ptr → BlockList → Bool
has p [] = false
has p ((a, s) ∷ xs) = (p == a) || has p xs

-- From the block behind `prev` the pointers lead both ways through the distinct blocks `xs`, and on
-- to `next`.
abbrev pub Seg : (Ptr → Option Node) → Ptr → BlockList → Ptr → Type 0
Seg cell prev [] next = Unit {0}
Seg cell prev ((a, s) ∷ xs) next =
    (a ≢ 0)
    × (cell a ≡ some (node s (head_or next xs) prev))
    × (has a xs ≡ false)
    × Seg cell a xs next

abbrev pub Disjoint : BlockList → BlockList → Type 0
Disjoint xs ys = (a : Ptr) → has a xs ≡ true → has a ys ≡ false

-- A segment survives any change that spares its own blocks.
pub frame :
    {c d : Ptr → Option Node} (prev next : Ptr) (xs : BlockList)
    → Seg c prev xs next
    → ((a : Ptr) → has a xs ≡ true → d a ≡ c a)
    → Seg d prev xs next
frame prev next [] h same = tt
frame prev next ((a, s) ∷ xs) (ne, at, out, rest) same =
    (ne, ground (arith, same a), out, frame a next xs rest (λ b i. same b (ground arith)))

pub frame-write :
    (c : Ptr → Option Node) (prev next p : Ptr) (m : Node) (xs : BlockList)
    → Seg c prev xs next
    → has p xs ≡ false
    → Seg (write c p m) prev xs next
frame-write c prev next p m xs h out = frame prev next xs h (λ a i. ground arith)

pub has-append : (a : Ptr) (xs ys : BlockList) → has a (xs ++ ys) ≡ (has a xs || has a ys)
has-append a [] ys = refl
has-append a ((b, s) ∷ xs) ys = ground (arith, has-append a xs ys)

head_or-append : (d : Ptr) (xs ys : BlockList) → head_or d (xs ++ ys) ≡ head_or (head_or d ys) xs
head_or-append d [] ys = refl
head_or-append d (x ∷ xs) ys = refl

pub last_or-append :
    (d : Ptr) (xs ys : BlockList) → last_or d (xs ++ ys) ≡ last_or (last_or d xs) ys
last_or-append d [] ys = refl
last_or-append d ((a, s) ∷ xs) ys = last_or-append a xs ys

-- A segment of two parts is a segment for each.
pub split :
    (c : Ptr → Option Node) (prev next : Ptr) (xs ys : BlockList)
    → Seg c prev (xs ++ ys) next
    → Seg c prev xs (head_or next ys) × Seg c (last_or prev xs) ys next × Disjoint xs ys
split c prev next [] ys h = (tt, h, λ a i. absurd (cc))
split c prev next ((a, s) ∷ xs) ys (ne, at, out, rest) =
    let (left, right, apart) = split c a next xs ys rest in
    (
      (ne, ground (arith, head_or-append next xs ys), ground (arith, has-append a xs ys), left),
      right,
      λ b i. ground (arith, has-append a xs ys, apart b),
    )

pub join :
    (c : Ptr → Option Node) (prev next : Ptr) (xs ys : BlockList)
    → Seg c prev xs (head_or next ys)
    → Seg c (last_or prev xs) ys next
    → Disjoint xs ys
    → Seg c prev (xs ++ ys) next
join c prev next [] ys left right apart = right
join c prev next ((a, s) ∷ xs) ys (ne, at, out, left) right apart = (
  ne,
  ground (arith, head_or-append next xs ys),
  ground (arith, has-append a xs ys, apart a),
  join c a next xs ys left right (λ b i. apart b (ground arith)),
)

pub has-last : (a : Ptr) (s : ℕ) (xs : BlockList) → has (last_or a xs) ((a, s) ∷ xs) ≡ true
has-last a s [] = ground arith
has-last a s ((b, t) ∷ xs) = ground (arith, has-last b t xs)

pub ne-has : (p q : Ptr) (xs : BlockList) → has p xs ≡ true → has q xs ≡ false → q ≢ p
ne-has p q xs inside outside e = ground (arith, ap (λ a. has a xs) e)

pub write-ne : (c : Ptr → Option Node) (p q : Ptr) (m : Node) → q ≢ p → write c p m q ≡ c q
write-ne c p q m ne = ground arith

-- The last block of a segment, and the segment after its `next` is set.
pub relink_last :
    (c : Ptr → Option Node) (prev next next' a : Ptr) (s : ℕ) (xs : BlockList)
    → Seg c prev ((a, s) ∷ xs) next
    → (m : Node) × (last_or a xs ≢ 0)
      × (c (last_or a xs) ≡ some m)
      × (m.next ≡ next)
      × Seg (write c (last_or a xs) (record m { next = next' })) prev ((a, s) ∷ xs) next'
relink_last c prev next next' a s [] (ne, at, out, rest) =
    (node s next prev, ne, at, refl, (ne, ground arith, refl, tt))
relink_last c prev next next' a s ((b, t) ∷ xs) (ne, at, out, rest) =
    let (m, ne', at', e, seg) = relink_last c a next next' b t xs rest in
    (
      m,
      ne',
      at',
      e,
      (
        ne,
        write-ne c (last_or b xs) a (record m { next = next' })
              (ne-has (last_or b xs) a ((b, t) ∷ xs) (has-last b t xs) out)
            ∙ at,
        out,
        seg,
      ),
    )

-- A segment after the `prev` of its first block is set.
pub relink_first :
    (c : Ptr → Option Node) (prev prev' next a : Ptr) (s : ℕ) (xs : BlockList)
    → Seg c prev ((a, s) ∷ xs) next
    → Seg (write c a (node s (head_or next xs) prev')) prev' ((a, s) ∷ xs) next
relink_first c prev prev' next a s xs (ne, at, out, rest) =
    (ne, ground arith, out, frame-write c a next a _ xs rest out)
