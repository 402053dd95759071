-- ===== src/Space.antt =====
-- kernel/mm/paging.c: page directories, their page tables, and how address spaces are mapped and
-- duplicated. A directory and a table are blocks behind a pointer, so that two directories can share
-- a table. A command faults (`none`) at a null or dangling pointer, where `kmalloc_base` has no block
-- left, or where its fuel runs out. Addresses are 32 bits wide.
pub mod Ranges
pub mod Entries
pub mod Step
pub mod Identity
pub mod Ends
pub mod Fork
pub mod Fault
pub mod Tests
use yanix.Common.{
  ℕ, zero, suc, ◌+◌, ◌-◌, ◌*◌, ◌/◌, ◌%◌, ◌^◌, Bool, true, false, not, ◌&&◌, Option, none, some,
  List, [], ◌∷◌, ◌==◌, ltb, leb, if◌then◌else◌,
}
use yanix.Common.Int.{ℤ, pos, negsuc}
use yanix.Paging.{
  Page, no_page, Frames, Done, alloc_frame, flagforce_alloc_frame, realloc_frame, map_frame,
  clear_frame,
}

abbrev pub Ptr : Type 0
Ptr = ℕ

-- `page_table_t`: the page at each index below 1024.
abbrev pub Table : Type 0
Table = ℕ → Page

-- `page_directory_t`, its two arrays by index.
pub record Directory : Type 0 where
  pub tables : ℕ → Ptr
  pub tables_physical : ℕ → ℕ
  pub physical_address : ℕ

-- Memory: the directories and tables behind their pointers, and the bytes of each frame. `heap` are
-- the blocks that `kmalloc_base` hands out next, each with its physical address.
pub record Machine : Type 0 where
  pub directory : Ptr → Option Directory
  pub table : Ptr → Option Table
  pub ram : ℕ → List ℕ
  pub heap : List (Ptr × ℕ)
  pub frames : Frames
  pub current : Ptr
  pub kernel : Ptr
  pub cr3 : ℕ
  pub errno : Option ℕ

abbrev pub Cmd : Type 0 → Type 0
Cmd A = Machine → Option (A × Machine)

abbrev pub pure : {A : Type 0} → A → Cmd A
pure a s = some (a, s)

abbrev pub and_then : {A B : Type 0} → Option (A × Machine) → (A → Cmd B) → Option (B × Machine)
and_then none f = none
and_then (some (a, s)) f = f a s

infixl 5 ◌>>=◌ ◌>>◌
abbrev pub ◌>>=◌ : {A B : Type 0} → Cmd A → (A → Cmd B) → Cmd B
m >>= f = λ s. and_then (m s) f

abbrev pub ◌>>◌ : {B : Type 0} → Cmd (Unit {0}) → Cmd B → Cmd B
m >> k = m >>= λ _. k

abbrev pub fault : {A : Type 0} → Cmd A
fault s = none

abbrev pub or_fault : {A : Type 0} → Option A → Cmd A
or_fault none s = none
or_fault (some a) s = some (a, s)

-- `m[p] = v` on a map.
abbrev pub put : {V : Type 0} → (ℕ → V) → ℕ → V → ℕ → V
put m p v q = if q == p then v else m q

abbrev pub load_directory : Ptr → Cmd Directory
load_directory dir s = or_fault (s.directory dir) s

abbrev pub store_directory : Ptr → Directory → Cmd (Unit {0})
store_directory dir d s = some (tt, record s { directory = put s.directory dir (some d) })

abbrev pub load_table : Ptr → Cmd Table
load_table t s = or_fault (s.table t) s

abbrev pub store_table : Ptr → Table → Cmd (Unit {0})
store_table t pages s = some (tt, record s { table = put s.table t (some pages) })

abbrev pub get_current_dir : Cmd Ptr
get_current_dir s = some (s.current, s)

abbrev pub get_kernel_dir : Cmd Ptr
get_kernel_dir s = some (s.kernel, s)

-- The block that `kmalloc_base` hands out.
abbrev pub next_block : Cmd (Ptr × ℕ)
next_block s = elim s.heap [ [] ↦ none | b ∷ bs ↦ some (b, record s { heap = bs }) ]

-- The frames have `page->frame * 0x1000` as their physical address.
unfoldable pub virt_to_phys_from_dir : (virtual_address : ℕ) (dir : Ptr) → Cmd ℕ
virt_to_phys_from_dir virtual_address dir = do
  d ← load_directory dir
  pages ← load_table (d.tables (virtual_address / 0x1000 / 1024))
  let page = pages (virtual_address / 0x1000 % 1024)
  if page.frame == 0 then pure 0 else pure (page.frame * 0x1000 + virtual_address % 0x1000)

unfoldable pub switch_page_directory : (dir : Ptr) → Cmd (Unit {0})
switch_page_directory dir = do
  d ← load_directory dir
  (λ s. some (tt, record s { current = dir; cr3 = d.physical_address }))

-- `phys | flags`: the block starts at a page, and the flags are below its size.
unfoldable pub alloc_page_table : (table_index flags : ℕ) (dir : Ptr) → Cmd (Unit {0})
alloc_page_table table_index flags dir = do
  (block, phys) ← next_block
  store_table block (λ _. no_page)
  d ← load_directory dir
  store_directory dir (record d {
    tables = put d.tables table_index block;
    tables_physical = put d.tables_physical table_index (phys + flags);
  })

-- Where a page stands: its table, and its index there.
abbrev pub Slot : Type 0
Slot = Ptr × ℕ

-- The slot of a page; `none` is the null pointer.
unfoldable pub get_page :
    (virtual_address : ℕ) (make_page_table : Bool) (dir : Ptr) → Cmd (Option Slot)
get_page virtual_address make_page_table dir = do
  let index = virtual_address / 0x1000
  d ← load_directory dir
  if d.tables (index / 1024) == 0
      then (if make_page_table
          then (do
            alloc_page_table (index / 1024) 7 dir
            d ← load_directory dir
            pure (some (d.tables (index / 1024), index % 1024)))
          else pure none)
      else pure (some (d.tables (index / 1024), index % 1024))

-- `*page`, which faults at the null pointer.
abbrev pub load_page : Option Slot → Cmd Page
load_page none = fault
load_page (some (t, i)) = do pages ← load_table t; pure (pages i)

abbrev pub store_page : Option Slot → Page → Cmd (Unit {0})
store_page none page = fault
store_page (some (t, i)) page = do pages ← load_table t; store_table t (put pages i page)

-- The call of one of the routines on frames for the page of a slot.
abbrev pub on_page : Option Slot → (Page → Frames → Option Done) → Cmd ℤ
on_page slot f = do
  page ← load_page slot
  done ← (λ s. or_fault (f page s.frames) s)
  store_page slot done.page
  (λ s. some (
    done.result,
    record s { frames = done.frames; errno = elim done.errno [ none ↦ s.errno | some e ↦ some e ] },
  ))
