-- ===== src/Space/Entries.antt =====
-- The pages that a directory maps, and how `get_page` and the calls on its page change them.
use yanix.Common.{
  ℕ, ◌+◌, ◌*◌, ◌/◌, ◌%◌, ◌≤◌, ◌<◌, ◌≡◌, ◌≢◌, refl, sym, ap, ◌∙◌, inl, inr, ◌⊎◌, true,
  some-injective, some, List, [], ◌∷◌, arith, length, ne→==, eq→==,
}
use mathlib.Core.Path.{subst}
use native.Mathlib.Decide.{ℕ_discrete}
use yanix.Paging.{Page, no_page}
use yanix.Space.{
  Ptr, Table, Directory, Machine, put, get_page, alloc_page_table, virt_to_phys_from_dir,
}

pub put_self : {V : Type 0} → (m : ℕ → V) (p : ℕ) (v : V) → put m p v p ≡ v
put_self m p v = rw (eq→== p p refl) refl

pub put_ne : {V : Type 0} → (m : ℕ → V) (p q : ℕ) (v : V) → q ≢ p → put m p v q ≡ m q
put_ne m p q v ne = rw (ne→== q p ne) refl

-- The block is none of the blocks.
abbrev pub Off : Ptr → List (Ptr × ℕ) → Type 0
Off b [] = Unit {0}
Off b ((c, p) ∷ bs) = (b ≢ c) × Off b bs

-- The blocks to come are not null, no tables of the directory, and different.
abbrev pub Fresh : Directory → List (Ptr × ℕ) → Type 0
Fresh d [] = Unit {0}
Fresh d ((b, p) ∷ bs) = (b ≢ 0) × ((i : ℕ) → d.tables i ≢ b) × Off b bs × Fresh d bs

-- The directory behind `dir` is `d`, and its tables are blocks of their own.
pub record Space (s : Machine) (dir : Ptr) (d : Directory) : Type 0 where
  pub at : s.directory dir ≡ some d
  pub live : (i : ℕ) → d.tables i ≢ 0 → (pages : Table) × (s.table (d.tables i) ≡ some pages)
  pub apart : (i j : ℕ) → d.tables i ≢ 0 → d.tables i ≡ d.tables j → i ≡ j
  pub fresh : Fresh d s.heap

-- The directory has the page for the addresses from `n * 0x1000` on.
abbrev pub Maps : Machine → Directory → (n : ℕ) → Page → Type 0
Maps s d n page =
    (d.tables (n / 1024) ≢ 0)
    × (pages : Table) × (s.table (d.tables (n / 1024)) ≡ some pages)
    × (pages (n % 1024) ≡ page)

-- The pages that were there are still there.
abbrev pub Keeps : Machine → Directory → Machine → Directory → Type 0
Keeps s d s' d' = (n : ℕ) (page : Page) → Maps s d n page → Maps s' d' n page

-- The table with the index `t` is there now.
pub record Got (s : Machine) (dir : Ptr) (d : Directory) (t : ℕ) (s' : Machine) (d' : Directory)
    : Type 0 where
  pub space : Space s' dir d'
  pub made : d'.tables t ≢ 0
  pub frames : s'.frames ≡ s.frames
  pub supply : length s.heap ≤ length s'.heap + 1
  pub keeps : Keeps s d s' d'
  pub only : (n : ℕ) (q : Page) → Maps s' d' n q → Maps s d n q ⊎ (q ≡ no_page)

-- The directory with a table at a new index.
abbrev with_table : Directory → (t : ℕ) (block : Ptr) (phys : ℕ) → Directory
with_table d t block phys = record d {
  tables = put d.tables t block;
  tables_physical = put d.tables_physical t (phys + 7);
}

Fresh-table :
    (d : Directory) (t b phys : ℕ) (bs : List (Ptr × ℕ))
    → Off b bs
    → Fresh d bs
    → Fresh (with_table d t b phys) bs
Fresh-table d t b phys [] off h = tt
Fresh-table d t b phys ((c, p) ∷ bs) (ne, off) (nonnull, others, out, h) = (
  nonnull,
  (λ i. elim (ℕ_discrete i t) [
    | yes e ↦ (rw (e, put_self d.tables t b) ne)
    | no away ↦ (rw (put_ne d.tables t i b away) (others i))
  ]),
  out,
  Fresh-table d t b phys bs off h,
)

heap-cases :
    (bs : List (Ptr × ℕ))
    → 0 < length bs
    → (b : Ptr) × (phys : ℕ) × (cs : List (Ptr × ℕ)) × (bs ≡ (b, phys) ∷ cs)
heap-cases [] h = absurd (omega arith)
heap-cases ((b, phys) ∷ cs) h = (b, phys, cs, refl)

module _ (s : Machine) (dir : Ptr) (d : Directory) (t b phys : ℕ) (bs : List (Ptr × ℕ))
    (h : Space s dir d) (blocks : s.heap ≡ (b, phys) ∷ bs) (absent : d.tables t ≡ 0) where
  -- The machine with the new table.
  abbrev made_machine : Machine
  made_machine = record s {
    heap = bs;
    table = put s.table b (some (λ _. no_page));
    directory = put s.directory dir (some (with_table d t b phys));
  }

  made-Got : Got s dir d t made_machine (with_table d t b phys)
  made-Got =
      let (nonnull, others, off, fresh) = subst (Fresh d) blocks h.fresh in
      let own : put d.tables t b t ≡ b = put_self d.tables t b in
      let other : (i : ℕ) → i ≢ t → put d.tables t b i ≡ d.tables i =
        λ i ne. put_ne d.tables t i b ne in
      let kept : (i : ℕ) → put s.table b (some (λ _. no_page)) (d.tables i) ≡ s.table (d.tables i) =
        λ i. put_ne s.table b (d.tables i) (some (λ _. no_page)) (others i) in
      record {
        space = record {
          at = put_self s.directory dir (some (with_table d t b phys));
          live = λ i used. elim (ℕ_discrete i t) [
            | yes e ↦ ((λ _. no_page), rw (e, own) (put_self s.table b (some (λ _. no_page))))
            | no ne ↦
                (let (pages, at) = h.live i (λ z. used (other i ne ∙ z)) in
                  (pages, rw (other i ne) (kept i ∙ at)))
          ];
          apart = λ i j used same. elim (ℕ_discrete i t) [
            | yes e ↦ elim (ℕ_discrete j t) [
              | yes f ↦ e ∙ sym f
              | no ne ↦
                  absurd
                    (others j (sym (sym own ∙ ap (put d.tables t b) (sym e) ∙ same ∙ other j ne)))
            ]
            | no ne ↦ elim (ℕ_discrete j t) [
              | yes f ↦ absurd (others i (sym (other i ne) ∙ same ∙ ap (put d.tables t b) f ∙ own))
              | no ne' ↦
                  h.apart i j (λ z. used (other i ne ∙ z)) (sym (other i ne) ∙ same ∙ other j ne')
            ]
          ];
          fresh = Fresh-table d t b phys bs off fresh;
        };
        made = λ z. nonnull (sym own ∙ z);
        frames = refl;
        supply = rw blocks (omega arith);
        keeps = λ n page (used, pages, at, here).
            (let ne : n / 1024 ≢ t = λ e. used (ap d.tables e ∙ absent) in
              let e = other (n / 1024) ne in
              ((λ z. used (sym e ∙ z)), pages, rw e (kept (n / 1024) ∙ at), here));
        only = λ n q (used, pages, at, here). elim (ℕ_discrete (n / 1024) t) [
          | yes e ↦
              (let at_b : put s.table b (some (λ _. no_page)) b ≡ some pages =
                  ap (put s.table b (some (λ _. no_page))) (sym own ∙ sym (ap (put d.tables t b) e))
                  ∙ at in
                let blank =
                  some-injective (sym (put_self s.table b (some (λ _. no_page))) ∙ at_b) in
                inr (sym here ∙ sym (ap (λ f. f (n % 1024)) blank)))
          | no ne ↦
              (let e = other (n / 1024) ne in
                inl (
                  (λ z. used (e ∙ z)),
                  pages,
                  sym (kept (n / 1024)) ∙ ap (put s.table b (some (λ _. no_page))) (sym e) ∙ at,
                  here,
                ))
        ];
      }

  get_page-makes :
      (a : ℕ)
      → a / 0x1000 / 1024 ≡ t
      → get_page a true dir s ≡ some (some (b, a / 0x1000 % 1024), made_machine)
  unfolding get_page alloc_page_table
  get_page-makes a e =
      rw
        (
          h.at,
          e,
          absent,
          blocks,
          h.at,
          put_self s.directory dir (some (with_table d t b phys)),
          eq→== t t refl,
        )
        refl

-- `get_page` that makes tables finds the slot of the page of an address. It never faults while
-- `kmalloc_base` has a block left, and no page that the directory maps goes.
pub get_page-Got :
    (s : Machine) (dir : Ptr) (d : Directory) (a : ℕ)
    → Space s dir d
    → 0 < length s.heap
    → (s' : Machine) × (d' : Directory) × (get_page a true dir s
        ≡ some (some (d'.tables (a / 0x1000 / 1024), a / 0x1000 % 1024), s'))
      × Got s dir d (a / 0x1000 / 1024) s' d'
get_page-Got s dir d a h supply = elim (ℕ_discrete (d.tables (a / 0x1000 / 1024)) 0) [
  | yes absent ↦
      let t = a / 0x1000 / 1024 in
      let (b, phys, bs, blocks) = heap-cases s.heap supply in
      (
        made_machine s dir d (a / 0x1000 / 1024) b phys bs h blocks absent,
        with_table d (a / 0x1000 / 1024) b phys,
        get_page-makes s dir d t b phys bs h blocks absent a refl
            ∙ ap
                (λ x.
                  some
                    (some (x, a / 0x1000 % 1024), made_machine s dir d t b phys bs h blocks absent))
                (sym (put_self d.tables t b)),
        made-Got s dir d (a / 0x1000 / 1024) b phys bs h blocks absent,
      )
  | no present ↦ (
    s,
    d,
    (unfold get_page in rw (h.at, ne→== (d.tables (a / 0x1000 / 1024)) 0 present) refl),
    record {
      space = h;
      made = present;
      frames = refl;
      supply = omega arith;
      keeps = λ n page m. m;
      only = λ n q m. inl m;
    },
  )
]

-- An address goes to the same place in the frame of its page.
pub Maps-translates :
    (s : Machine) (dir : Ptr) (d : Directory) (v : ℕ) (page : Page)
    → s.directory dir ≡ some d
    → Maps s d (v / 0x1000) page
    → page.frame ≢ 0
    → virt_to_phys_from_dir v dir s ≡ some (page.frame * 0x1000 + v % 0x1000, s)
unfolding virt_to_phys_from_dir
Maps-translates s dir d v page at (used, pages, at_t, is) ne =
    rw (at, at_t, is, ne→== page.frame 0 ne) refl
