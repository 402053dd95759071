-- ===== src/Space/Step.antt =====
-- `map_frame` of the page that `get_page` finds.
use mathlib.Core.Path.{subst}
use yanix.Common.{
  some-injective, ℕ, ◌+◌, ◌/◌, ◌%◌, ◌≤◌, ◌<◌, ◌≡◌, ◌≢◌, refl, sym, ap, ◌∙◌, Bool, true, false, not,
  ◌&&◌, Option, none, some, arith, ◌==◌, length,
}
use native.Mathlib.Decide.{ℕ_discrete}
use yanix.Common.Int.{pos}
use yanix.Paging.{Page, Frames, bound, map_frame}
use yanix.Paging.Bits.{IsValid}
use yanix.Paging.Alloc.{Used, set_frame-Used}
use yanix.Space.{Ptr, Table, Directory, Machine, put, Slot, get_page, on_page}
use yanix.Space.Entries.{Space, Maps, put_self, put_ne, get_page-Got}

and_false : (b : Bool) → (b && false) ≡ false
and_false true = refl
and_false false = refl

-- The page with the number `n` is `page` now, and the others are as they were.
pub record Bound (s : Machine) (dir : Ptr) (d : Directory) (n : ℕ) (page : Page) (s' : Machine)
    : Type 0 where
  pub space : Space s' dir d
  pub here : Maps s' d n page
  pub others : (m : ℕ) (q : Page) → m ≢ n → Maps s d m q → Maps s' d m q
  pub heap : s'.heap ≡ s.heap

-- A page is stored at its slot.
pub stored-Bound :
    (s : Machine) (dir : Ptr) (d : Directory) (n : ℕ) (page : Page) (pages : Table) (fr : Frames)
    → Space s dir d
    → d.tables (n / 1024) ≢ 0
    → s.table (d.tables (n / 1024)) ≡ some pages
    → Bound s dir d n page (record s {
      table = put s.table (d.tables (n / 1024)) (some (put pages (n % 1024) page));
      frames = fr;
    })
stored-Bound s dir d n page pages fr h made at =
    let t = d.tables (n / 1024) in
    let new = put pages (n % 1024) page in
    record {
      space = record {
        at = h.at;
        live = λ i used. elim (ℕ_discrete (d.tables i) t) [
          | yes e ↦ (new, rw e (put_self s.table t (some new)))
          | no ne ↦
              (let (old, at_i) = h.live i used in
                (old, put_ne s.table t (d.tables i) (some new) ne ∙ at_i))
        ];
        apart = h.apart;
        fresh = h.fresh;
      };
      here = (made, new, put_self s.table t (some new), put_self pages (n % 1024) page);
      others = λ m q away (used, old, at_m, is). elim (ℕ_discrete (m / 1024) (n / 1024)) [
        | yes e ↦
            let off : m % 1024 ≢ n % 1024 = λ f. away (omega (arith, e, f)) in
            let same : old ≡ pages =
              some-injective (sym at_m ∙ ap (λ x. s.table (d.tables x)) e ∙ at) in
            (
              used,
              new,
              ap (λ x. put s.table t (some new) (d.tables x)) e ∙ put_self s.table t (some new),
              put_ne pages (n % 1024) (m % 1024) page off ∙ sym (ap (λ f. f (m % 1024)) same) ∙ is,
            )
        | no ne ↦ (
          used,
          old,
          put_ne s.table t (d.tables (m / 1024)) (some new)
                (λ e. ne (h.apart (m / 1024) (n / 1024) used e))
              ∙ at_m,
          is,
        )
      ];
      heap = refl;
    }

map_frame-remaps :
    (page : Page) (addr : ℕ) (is_kernel writable : Bool) (fr : Frames)
    → IsValid fr
    → addr / 0x1000 < fr.nframes
    → (fr' : Frames) × (map_frame page addr true is_kernel writable fr
        ≡ some (record {
          result = pos 0;
          page = bound (addr / 0x1000) is_kernel writable;
          frames = fr';
          errno = none;
        }))
      × Used fr (addr / 0x1000) fr'
unfolding map_frame
map_frame-remaps page addr is_kernel writable fr h lt =
    let (fr', run, used) = set_frame-Used {s = fr} addr (addr / 0x1000) h refl lt in
    (fr', (rw (and_false (not (page.frame == 0)), run) refl), used)

-- `map_frame` that remaps always binds the page of a slot to the frame of the address.
pub on_page-map_frame :
    (s : Machine) (dir : Ptr) (d : Directory) (n addr : ℕ) (is_kernel writable : Bool)
    → Space s dir d
    → d.tables (n / 1024) ≢ 0
    → IsValid s.frames
    → addr / 0x1000 < s.frames.nframes
    → (s' : Machine) × (on_page
          (some (d.tables (n / 1024), n % 1024))
          (λ page. map_frame page addr true is_kernel writable)
          s
        ≡ some (pos 0, s'))
      × Bound s dir d n (bound (addr / 0x1000) is_kernel writable) s'
      × Used s.frames (addr / 0x1000) s'.frames
on_page-map_frame s dir d n addr is_kernel writable h made valid lt =
    let (pages, at) = h.live (n / 1024) made in
    let (fr', run, used) =
      map_frame-remaps (pages (n % 1024)) addr is_kernel writable s.frames valid lt in
    (
      record s {
        table =
            put s.table (d.tables (n / 1024))
              (some (put pages (n % 1024) (bound (addr / 0x1000) is_kernel writable)));
        frames = fr';
      },
      rw (at, run, at) refl,
      stored-Bound s dir d n (bound (addr / 0x1000) is_kernel writable) pages fr' h made at,
      used,
    )

-- What `get_page` and `map_frame` of one page leave.
pub record Step (s : Machine) (dir : Ptr) (d : Directory) (n : ℕ) (page : Page) (s' : Machine)
    (d' : Directory) : Type 0 where
  pub space : Space s' dir d'
  pub here : Maps s' d' n page
  pub others : (m : ℕ) (q : Page) → m ≢ n → Maps s d m q → Maps s' d' m q
  pub supply : length s.heap ≤ length s'.heap + 1
  pub valid : IsValid s'.frames
  pub nframes : s'.frames.nframes ≡ s.frames.nframes

pub map-Step :
    (s : Machine) (dir : Ptr) (d : Directory) (n a addr : ℕ) (is_kernel writable : Bool)
    → Space s dir d
    → a / 0x1000 ≡ n
    → 0 < length s.heap
    → IsValid s.frames
    → addr / 0x1000 < s.frames.nframes
    → (slot : Option Slot) × (s1 s2 : Machine) × (d2 : Directory) × (get_page a true dir s
        ≡ some (slot, s1))
      × (on_page slot (λ page. map_frame page addr true is_kernel writable) s1 ≡ some (pos 0, s2))
      × Step s dir d n (bound (addr / 0x1000) is_kernel writable) s2 d2
map-Step s dir d n a addr is_kernel writable h e supply valid lt =
    let (s1, d1, got, g) = get_page-Got s dir d a h supply in
    let made : d1.tables (n / 1024) ≢ 0 = subst (λ x. d1.tables (x / 1024) ≢ 0) e g.made in
    let (s2, run, b, used) =
      on_page-map_frame s1 dir d1 n addr is_kernel writable g.space made (rw g.frames valid)
        (rw g.frames lt) in
    (
      some (d1.tables (n / 1024), n % 1024),
      s1,
      s2,
      d1,
      got ∙ ap (λ x. some (some (d1.tables (x / 1024), x % 1024), s1)) e,
      run,
      record {
        space = b.space;
        here = b.here;
        others = λ m q away is. b.others m q away (g.keeps m q is);
        supply = rw b.heap g.supply;
        valid = used.valid;
        nframes = used.nframes ∙ ap (λ f. f.nframes) g.frames;
      },
    )
