-- ===== src/Space/Fork/Page.antt =====
-- `copy_page` gives the new address space a frame of its own with the bytes of the page.
use yanix.Common.{
  ℕ, ◌*◌, ◌/◌, ◌%◌, ◌<◌, ◌≡◌, ◌≢◌, refl, sym, ◌∙◌, Bool, true, false, not, Option, some,
}
use native.Mathlib.Decide.{ℕ_discrete}
use yanix.Common.Int.{pos}
use mathlib.Core.Path.{subst}
use yanix.Paging.{Page, Frames, alloc_frame}
use yanix.Paging.Bits.{bit, IsValid}
use yanix.Paging.Alloc.{Used}
use yanix.Space.{
  Ptr, Table, Directory, Machine, put, Slot, get_page, load_page, store_page, on_page,
}
use yanix.Space.Entries.{Space, Maps, put_self, put_ne}
use yanix.Space.Step.{stored-Bound}
use yanix.Space.Fork.{page_buffer_location, copy_page}
use yanix.Space.Fork.Slots.{
  buffer, slot, get_page-there, load_page-Maps, Maps-unique, stored, store_page-Maps, Maps-other,
  copied_page, Taken, alloc_frame-Taken,
}

-- The calls of `copy_page`, one after the other.
copy_page-steps :
    (s s1 s2 s4 : Machine) (addr : ℕ) (newdir : Ptr) (copied buf new : Option Slot)
    (page bufpage newpage b2 : Page)
    → get_page addr true s.current s ≡ some (copied, s)
    → get_page page_buffer_location true s.current s ≡ some (buf, s)
    → get_page addr true newdir s ≡ some (new, s)
    → load_page buf s ≡ some (bufpage, s)
    → load_page copied s ≡ some (page, s)
    → on_page new (λ q. alloc_frame q (not page.user) page.rw) s ≡ some (pos 0, s1)
    → load_page new s1 ≡ some (newpage, s1)
    → load_page buf s1 ≡ some (bufpage, s1)
    → store_page buf (record bufpage { frame = newpage.frame }) s1 ≡ some (tt, s2)
    → load_page buf s2 ≡ some (b2, s2)
    → load_page copied s2 ≡ some (page, s2)
    → b2.present ≡ true
    → page.present ≡ true
    → (let s3 : Machine = record s2 { ram = put s2.ram b2.frame (s2.ram page.frame) } in
        load_page buf s3 ≡ some (b2, s3))
    → (let s3 : Machine = record s2 { ram = put s2.ram b2.frame (s2.ram page.frame) } in
        store_page buf (record b2 { frame = bufpage.frame }) s3 ≡ some (tt, s4))
    → copy_page addr newdir s ≡ some (tt, s4)
unfolding copy_page
copy_page-steps s s1 s2 s4 addr newdir copied buf new page bufpage newpage b2 e1 e2 e3 e4 e5 e6 e7
      e8 e9 e10 e11 p1 p2 e12 e13 =
    rw (e1, e2, e3, e4, e5, e6, e7, e8, e9, e10, e11, p1, p2, e12) e13

-- What `copy_page` leaves: the new directory has the page over a frame that was free, with the bytes of
-- the page and its flags, and the current directory is as it was.
pub record Copied (s : Machine) (d e : Directory) (n : ℕ) (page : Page) (f : ℕ) (s' : Machine)
    : Type 0 where
  pub was_free : bit s.frames.words f ≡ false
  pub used : Used s.frames f s'.frames
  pub new : Maps s' e n (copied_page page f)
  pub bytes : s'.ram f ≡ s.ram page.frame
  pub others : (g : ℕ) → g ≢ f → s'.ram g ≡ s.ram g
  pub current : (m : ℕ) (q : Page) → Maps s d m q → Maps s' d m q

Space-other :
    (s : Machine) (dir : Ptr) (d e : Directory) (n : ℕ) (new : Table) (fr : Frames)
    → Space s dir d
    → ((i : ℕ) → d.tables i ≢ e.tables (n / 1024))
    → Space (record s { table = put s.table (e.tables (n / 1024)) (some new); frames = fr }) dir d
Space-other s dir d e n new fr h off = record {
  at = h.at;
  live = λ i used.
      (let (old, at) = h.live i used in
        (old, put_ne s.table (e.tables (n / 1024)) (d.tables i) (some new) (off i) ∙ at));
  apart = h.apart;
  fresh = h.fresh;
}

not-not : (b : Bool) → not (not b) ≡ b
not-not true = refl
not-not false = refl

on_page-Taken :
    (s : Machine) (e : Directory) (n : ℕ) (q page : Page) (pages : Table)
    → e.tables (n / 1024) ≢ 0
    → s.table (e.tables (n / 1024)) ≡ some pages
    → pages (n % 1024) ≡ q
    → (t : Taken q (not page.user) page.rw s.frames)
    → on_page (slot e n) (λ q. alloc_frame q (not page.user) page.rw) s
      ≡ some (
        pos 0,
        record s {
          table =
              put s.table
                (e.tables (n / 1024))
                (some (put pages (n % 1024) (copied_page page t.frame)));
          frames = t.frames;
        },
      )
on_page-Taken s e n q page pages used at is t = rw (at, is, t.run, at, not-not page.user) refl

-- The table of the page of a directory.
abbrev table_of : Directory → ℕ → Ptr
table_of d n = d.tables (n / 1024)

module _ (s : Machine) (d e : Directory) (newdir : Ptr) (a n f0 : ℕ) (page bufpage q : Page)
    (h : Space s s.current d) (at_e : s.directory newdir ≡ some e) (of_a : a / 0x1000 ≡ n)
    (away : n ≢ buffer) (m : Maps s d n page) (b : Maps s d buffer bufpage) (g : Maps s e n q)
    (none_yet : q.frame ≡ 0) (off : (i : ℕ) → d.tables i ≢ table_of e n) (valid : IsValid s.frames)
    (lt : f0 < s.frames.nframes / 32 * 32) (free : bit s.frames.words f0 ≡ false)
    (here : page.present ≡ true) (here_b : bufpage.present ≡ true) where
  -- `copy_page` of a page that the current directory has and that is present, other than the buffer page,
  -- which is present too, into a table that the new directory has for itself and in which the page has
  -- no frame yet, never faults while one of the frames that are searched is free. The new directory
  -- then has the page, with its flags, over a frame that was free and that holds the bytes of the
  -- page. No other frame is changed, and the current directory, its buffer page included, maps what
  -- it did.
  pub copy_page-Copied :
      (s' : Machine) × (f : ℕ) × (copy_page a newdir s ≡ some (tt, s')) × Copied s d e n page f s'
  copy_page-Copied =
      let (used_e, pages_e, at_n, is_q) = g in
      let t = alloc_frame-Taken q (not page.user) page.rw s.frames f0 valid none_yet lt free in
      let f = t.frame in
      let new = put pages_e (n % 1024) (copied_page page f) in
      let s1 : Machine = record s {
        table = put s.table (table_of e n) (some new);
        frames = t.frames;
      } in
      let h1 = Space-other s s.current d e n new t.frames h off in
      let keep1 : (k : ℕ) (p : Page) → Maps s d k p → Maps s1 d k p = λ k p x.
        Maps-other s d e k n p (copied_page page f) pages_e t.frames s.ram (off (k / 1024)) x in
      let new1 : Maps s1 e n (copied_page page f) = (
        used_e,
        new,
        put_self s.table (table_of e n) (some new),
        put_self pages_e (n % 1024) (copied_page page f),
      ) in
      let (used_b, pages1, at1, is1) = keep1 buffer bufpage b in
      let over : Page = record bufpage { frame = f } in
      let s2 = stored s1 d buffer pages1 over in
      let b2 = stored-Bound s1 s.current d buffer over pages1 t.frames h1 used_b at1 in
      let s3 : Machine = record s2 { ram = put s2.ram f (s2.ram page.frame) } in
      let pages3 = put pages1 (buffer % 1024) over in
      let at3 : s3.table (table_of d buffer) ≡ some pages3 =
        put_self s1.table (table_of d buffer) (some pages3) in
      let h3 : Space s3 s.current d = record {
        at = b2.space.at;
        live = b2.space.live;
        apart = b2.space.apart;
        fresh = b2.space.fresh;
      } in
      let s4 = stored s3 d buffer pages3 bufpage in
      let b4 = stored-Bound s3 s.current d buffer bufpage pages3 t.frames h3 used_b at3 in
      let kept : (k : ℕ) (p : Page) → k ≢ buffer → Maps s d k p → Maps s4 d k p =
        λ k p ne x. b4.others k p ne (b2.others k p ne (keep1 k p x)) in
      (
        s4,
        f,
        copy_page-steps s s1 s2 s4 a newdir (slot d n) (slot d buffer) (slot e n) page bufpage
            (copied_page page f) over (get_page-there s s.current d a n h.at of_a m.0)
            (get_page-there s s.current d page_buffer_location buffer h.at refl b.0)
            (get_page-there s newdir e a n at_e of_a used_e) (load_page-Maps s d buffer bufpage b)
            (load_page-Maps s d n page m) (on_page-Taken s e n q page pages_e used_e at_n is_q t)
            (load_page-Maps s1 e n (copied_page page f) new1)
            (load_page-Maps s1 d buffer bufpage (keep1 buffer bufpage b))
            (store_page-Maps s1 d buffer over pages1 at1) (load_page-Maps s2 d buffer over b2.here)
            (load_page-Maps s2 d n page (b2.others n page away (keep1 n page m))) here_b here
            (load_page-Maps s3 d buffer over b2.here)
            (store_page-Maps s3 d buffer bufpage pages3 at3),
        record {
          was_free = t.was_free;
          used = t.used;
          new =
              Maps-other s3 e d n buffer (copied_page page f) bufpage pages3 t.frames s3.ram
                (λ z. off (buffer / 1024) (sym z))
                (Maps-other s1 e d n buffer (copied_page page f) over pages1 t.frames s.ram
                  (λ z. off (buffer / 1024) (sym z)) new1);
          bytes = put_self s.ram f (s.ram page.frame);
          others = λ k ne. put_ne s.ram f k (s.ram page.frame) ne;
          current = λ k p x. elim (ℕ_discrete k buffer) [
            | yes same ↦
                subst (λ z. Maps s4 d z p) (sym same)
                  (subst (Maps s4 d buffer)
                    (Maps-unique s d buffer bufpage p b (subst (λ z. Maps s d z p) same x)) b4.here)
            | no ne ↦ kept k p ne x
          ];
        },
      )
