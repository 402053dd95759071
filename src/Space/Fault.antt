-- ===== src/Space/Fault.antt =====
-- kernel/mm/fault.c: the page fault handler, which gives a page that is not present a frame.
use yanix.Common.{
  ℕ, ◌*◌, ◌/◌, ◌%◌, ◌≤◌, ◌<◌, ◌≡◌, ◌≢◌, refl, sym, ap, ◌∙◌, inl, inr, Bool, true, false, not, ◌&&◌,
  Option, none, some, ◌==◌, leb, if◌then◌else◌, length, le→leb, eq→==,
}
use mathlib.Core.Path.{subst}
use yanix.Paging.{Page, alloc_frame}
use yanix.Paging.Bits.{bit, IsValid}
use yanix.Paging.Alloc.{Used}
use yanix.Space.{
  Ptr, Directory, Machine, Cmd, pure, ◌>>=◌, ◌>>◌, put, get_page, on_page, get_current_dir,
}
use yanix.Space.Entries.{Space, Maps, get_page-Got}
use yanix.Space.Step.{stored-Bound}
use yanix.Space.Fork.Slots.{alloc_frame-Taken}

-- The result of `alloc_frame` is dropped.
unfoldable pub zero_page : (addr : ℕ) (pdir : Ptr) (user : Bool) → Cmd (Unit {0})
zero_page addr pdir user = do
  page ← get_page addr true pdir
  _ ← on_page page (λ q. alloc_frame q (not user) user)
  pure tt

-- What the handler uses of a task.
pub record Task : Type 0 where
  pub program_start : ℕ
  pub program_break : ℕ
  pub ring : ℕ

-- The handler gives the page a frame and returns, or calls `error_message`, which does not return.
pub data Handled : Type 0 where
  zeroed : Handled
  reported : Handled

-- `heap` is `is_addr_in_heap` of the address: whether the heap is in user mode, if it is in one.
unfoldable pub page_fault :
    (faulting_address err_code : ℕ) (heap : Option Bool) (curtask : Task) → Cmd Handled
page_fault faulting_address err_code heap curtask =
    if err_code % 2 == 0
    then elim heap [
      | some usermode ↦ (do
        dir ← get_current_dir
        zero_page faulting_address dir usermode
        pure zeroed)
      | none ↦
          (if leb curtask.program_start faulting_address
              && leb faulting_address curtask.program_break
            then (do
              dir ← get_current_dir
              zero_page faulting_address dir (not (curtask.ring == 0))
              pure zeroed)
            else pure reported)
    ]
    else pure reported

-- The page with the number `n` got a frame that was free.
pub record Resolved (s : Machine) (d : Directory) (n : ℕ) (user : Bool) (s' : Machine)
    (d' : Directory) : Type 0 where
  pub frame : ℕ
  pub was_free : bit s.frames.words frame ≡ false
  pub used : Used s.frames frame s'.frames
  pub here :
      Maps s' d' n (record { present = true; rw = user; user = not (not user); frame = frame })
  pub others : (m : ℕ) (q : Page) → m ≢ n → Maps s d m q → Maps s' d' m q

-- Of a page that is mapped, or not, the frame is 0.
abbrev pub Unbacked : Machine → Directory → ℕ → Type 0
Unbacked s d n = (q : Page) → Maps s d n q → q.frame ≡ 0

module _ (s : Machine) (d : Directory) (a f : ℕ) (h : Space s s.current d)
    (supply : 0 < length s.heap) (valid : IsValid s.frames) (unbacked : Unbacked s d (a / 0x1000))
    (lt : f < s.frames.nframes / 32 * 32) (free : bit s.frames.words f ≡ false) where
  zero_page-Resolved :
      (user : Bool)
      → (s' : Machine) × (d' : Directory) × (zero_page a s.current user s ≡ some (tt, s'))
        × Resolved s d (a / 0x1000) user s' d'
  unfolding zero_page
  zero_page-Resolved user =
      let n = a / 0x1000 in
      let (s1, d1, got, g) = get_page-Got s s.current d a h supply in
      let (pages, at) = g.space.live (n / 1024) g.made in
      let q = pages (n % 1024) in
      let empty : q.frame ≡ 0 = elim (g.only n q (g.made, pages, at, refl)) [
        | inl m ↦ unbacked q m
        | inr blank ↦ ap (λ p. p.frame) blank
      ] in
      let t =
        alloc_frame-Taken q (not user) user s1.frames f (rw g.frames valid) empty (rw g.frames lt)
          (rw g.frames free) in
      let new : Page = record {
        present = true;
        rw = user;
        user = not (not user);
        frame = t.frame;
      } in
      let b = stored-Bound s1 s.current d1 n new pages t.frames g.space g.made at in
      (
        record s1 {
          table = put s1.table (d1.tables (n / 1024)) (some (put pages (n % 1024) new));
          frames = t.frames;
        },
        d1,
        rw (got, at, t.run, at) refl,
        record {
          frame = t.frame;
          was_free = ap (λ z. bit z.words t.frame) (sym g.frames) ∙ t.was_free;
          used = subst (λ z. Used z t.frame t.frames) g.frames t.used;
          here = b.here;
          others = λ m p away is. b.others m p away (g.keeps m p is);
        },
      )

  -- A fault at an address of the program that is not present, in no heap, and whose page has no
  -- frame: the handler returns, and the page has a frame that was free, present, with the mode of
  -- the task; the other pages are as they were. Where `kmalloc_base` has a block left, and one of
  -- the frames that are searched is free.
  pub page_fault-Resolved :
      (err_code : ℕ) (curtask : Task)
      → err_code % 2 ≡ 0
      → curtask.program_start ≤ a
      → a ≤ curtask.program_break
      → (s' : Machine) × (d' : Directory) × (page_fault a err_code none curtask s
          ≡ some (zeroed, s'))
        × Resolved s d (a / 0x1000) (not (curtask.ring == 0)) s' d'
  unfolding page_fault
  page_fault-Resolved err_code curtask absent lo hi =
      let (s', d', run, r) = zero_page-Resolved (not (curtask.ring == 0)) in
      (
        s',
        d',
        rw
            (
              eq→== (err_code % 2) 0 absent,
              le→leb curtask.program_start a lo,
              le→leb a curtask.program_break hi,
              run,
            )
            refl,
        r,
      )
