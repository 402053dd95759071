-- ===== src/Space/Fork/Slots.antt =====
-- What `copy_page` relies on: pages in the slots of their tables, and a frame that `alloc_frame` takes.
use yanix.Common.{
  some-injective, ℕ, ◌*◌, ◌/◌, ◌%◌, ◌<◌, ◌≡◌, ◌≢◌, refl, sym, ap, ◌∙◌, Bool, true, false, not,
  Option, none, some, List, arith, ne→==, Returns-elim,
}
use yanix.Common.Int.{pos}
use yanix.Paging.{Page, Frames, Done, alloc_frame}
use yanix.Paging.Bits.{bit, IsValid}
use yanix.Paging.Alloc.{Used, Allocated, has_frame, allocated, no_memory, alloc-Allocated}
use yanix.Space.{Ptr, Table, Directory, Machine, put, Slot, get_page, load_page, store_page}
use yanix.Space.Entries.{Maps, put_ne}
use yanix.Space.Fork.{page_buffer_location}

abbrev pub buffer : ℕ
buffer = page_buffer_location / 0x1000

-- The page with a number stands in its table.
abbrev pub slot : Directory → ℕ → Option Slot
slot d n = some (d.tables (n / 1024), n % 1024)

pub get_page-there :
    (s : Machine) (dir : Ptr) (d : Directory) (a n : ℕ)
    → s.directory dir ≡ some d
    → a / 0x1000 ≡ n
    → d.tables (n / 1024) ≢ 0
    → get_page a true dir s ≡ some (slot d n, s)
unfolding get_page
get_page-there s dir d a n at e ne = rw (at, e, ne→== (d.tables (n / 1024)) 0 ne) refl

pub load_page-Maps :
    (s : Machine) (d : Directory) (n : ℕ) (page : Page)
    → Maps s d n page
    → load_page (slot d n) s ≡ some (page, s)
load_page-Maps s d n page (used, pages, at, is) = rw (at, is) refl

pub Maps-unique :
    (s : Machine) (d : Directory) (n : ℕ) (p q : Page) → Maps s d n p → Maps s d n q → p ≡ q
Maps-unique s d n p q (_, one, at, is) (_, two, at', is') =
    sym is ∙ ap (λ f. f (n % 1024)) (some-injective (sym at ∙ at')) ∙ is'

-- The machine with the page stored.
abbrev pub stored : Machine → Directory → ℕ → Table → Page → Machine
stored s d n pages page = record s {
  table = put s.table (d.tables (n / 1024)) (some (put pages (n % 1024) page));
}

pub store_page-Maps :
    (s : Machine) (d : Directory) (n : ℕ) (page : Page) (pages : Table)
    → s.table (d.tables (n / 1024)) ≡ some pages
    → store_page (slot d n) page s ≡ some (tt, stored s d n pages page)
store_page-Maps s d n page pages at = rw at refl

-- A store to a table of another directory.
pub Maps-other :
    (s : Machine) (e d : Directory) (m n : ℕ) (q page : Page) (pages : Table) (fr : Frames)
    (ram : ℕ → List ℕ)
    → e.tables (m / 1024) ≢ d.tables (n / 1024)
    → Maps s e m q
    → Maps
        (record s {
          table = put s.table (d.tables (n / 1024)) (some (put pages (n % 1024) page));
          frames = fr;
          ram = ram;
        })
        e
        m
        q
Maps-other s e d m n q page pages fr ram ne (used, old, at, is) = (
  used,
  old,
  put_ne s.table (d.tables (n / 1024)) (e.tables (m / 1024)) (some (put pages (n % 1024) page)) ne
      ∙ at,
  is,
)

-- The page over the frame that `alloc_frame` found.
abbrev pub copied_page : Page → ℕ → Page
copied_page page f = record { present = true; rw = page.rw; user = page.user; frame = f }

-- A frame was free and is used.
pub record Taken (q : Page) (is_kernel writable : Bool) (fr : Frames) : Type 0 where
  pub frame : ℕ
  pub frames : Frames
  pub run :
      alloc_frame q is_kernel writable fr
      ≡ some (record {
        result = pos 0;
        page = record { present = true; rw = writable; user = not is_kernel; frame = frame };
        frames = frames;
        errno = none;
      })
  pub was_free : bit fr.words frame ≡ false
  pub used : Used fr frame frames

Taken-by :
    {q : Page} {is_kernel writable : Bool} {fr : Frames} {done : Done}
    → Allocated q is_kernel writable fr done
    → alloc_frame q is_kernel writable fr ≡ some done
    → q.frame ≡ 0
    → (f : ℕ) → f < fr.nframes / 32 * 32
    → bit fr.words f ≡ false
    → Taken q is_kernel writable fr
Taken-by (has_frame ne) run e f lt free = absurd (ne e)
Taken-by (allocated {s' = s'} g null lt' free' below used) run e f lt free = record {
  frame = g;
  frames = s';
  run = run;
  was_free = free';
  used = used;
}
Taken-by (no_memory null all) run e f lt free = absurd (true_ne_false (sym (all f lt) ∙ free))
  where
    true_ne_false : true ≡ false → ⊥
    true_ne_false z = ground (arith, z)

pub alloc_frame-Taken :
    (q : Page) (is_kernel writable : Bool) (fr : Frames) (f : ℕ)
    → IsValid fr
    → q.frame ≡ 0
    → f < fr.nframes / 32 * 32
    → bit fr.words f ≡ false
    → Taken q is_kernel writable fr
alloc_frame-Taken q is_kernel writable fr f h e lt free =
    let (done, run, what) = Returns-elim (alloc-Allocated q is_kernel writable h) in
    Taken-by what run e f lt free
