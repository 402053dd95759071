-- ===== src/Space/Fork.antt =====
-- kernel/mm/paging.c: the copies of pages and of whole address spaces, and how one is given up.
pub mod Slots
pub mod Page
use yanix.Common.{
  ℕ, zero, suc, ◌+◌, ◌-◌, ◌*◌, ◌/◌, ◌%◌, ◌^◌, Bool, true, false, not, ◌&&◌, Option, none, some,
  List, [], ◌∷◌, ◌==◌, ltb, leb, if◌then◌else◌,
}
use yanix.Paging.{no_page, alloc_frame, clear_frame}
use yanix.Space.{
  Ptr, Directory, Machine, Cmd, pure, ◌>>=◌, ◌>>◌, fault, or_fault, put, load_directory,
  store_directory, load_table, store_table, get_current_dir, get_kernel_dir, next_block, Slot,
  get_page, load_page, store_page, on_page,
}

-- PAGE_BUFFER_LOCATION of mm/paging.h.
abbrev pub page_buffer_location : ℕ
page_buffer_location = 0x1100000

-- `memcpy(to, from, 0x1000)` for whole pages of the current directory, which are both present.
abbrev pub copy_bytes : (to from : Option Slot) → Cmd (Unit {0})
copy_bytes to from = do
  t ← load_page to
  f ← load_page from
  if t.present && f.present
      then (λ s. some (tt, record s { ram = put s.ram t.frame (s.ram f.frame) }))
      else fault

-- The buffer page stands over the new frame while the page is copied. The result of `alloc_frame` is
-- dropped.
unfoldable pub copy_page : (addr : ℕ) (newdir : Ptr) → Cmd (Unit {0})
copy_page addr newdir = do
  curdir ← get_current_dir
  copied ← get_page addr true curdir
  buffer ← get_page page_buffer_location true curdir
  new ← get_page addr true newdir
  bufpage ← load_page buffer
  copiedpage ← load_page copied
  _ ← on_page new (λ page. alloc_frame page (not copiedpage.user) copiedpage.rw)
  newpage ← load_page new
  b ← load_page buffer
  store_page buffer (record b { frame = newpage.frame })
  copy_bytes buffer copied
  b ← load_page buffer
  store_page buffer (record b { frame = bufpage.frame })

-- The pages of a table with the index `tableiter` from `pageiter` on.
pub copy_pages : (tableiter pageiter n : ℕ) (newdir : Ptr) → Cmd (Unit {0})
copy_pages tableiter pageiter zero newdir = pure tt
copy_pages tableiter pageiter (suc n) newdir = do
  curdir ← get_current_dir
  d ← load_directory curdir
  pages ← load_table (d.tables tableiter)
  (if (pages pageiter).present
      then copy_page ((tableiter * 1024 + pageiter) * 0x1000) newdir
      else pure tt)
  copy_pages tableiter (pageiter + 1) n newdir

-- `newdir->tables[tableiter] = table` and its physical address.
abbrev pub enter_table : (newdir : Ptr) (tableiter table physical : ℕ) → Cmd (Unit {0})
enter_table newdir tableiter table physical = do
  d ← load_directory newdir
  store_directory newdir (record d {
    tables = put d.tables tableiter table;
    tables_physical = put d.tables_physical tableiter physical;
  })

-- One table: it is shared if the kernel has it too, and else copied.
unfoldable pub duplicate_table : (tableiter : ℕ) (newdir : Ptr) → Cmd (Unit {0})
duplicate_table tableiter newdir = do
  curdir ← get_current_dir
  d ← load_directory curdir
  kerneldir ← get_kernel_dir
  k ← load_directory kerneldir
  if d.tables_physical tableiter == 0
      then pure tt
      else if d.tables tableiter == k.tables tableiter
      then enter_table newdir tableiter (d.tables tableiter) (d.tables_physical tableiter)
      else (do
        (table, phys) ← next_block
        store_table table (λ _. no_page)
        enter_table newdir tableiter table (phys + d.tables_physical tableiter % 16)
        copy_pages tableiter 0 1024 newdir)

pub duplicate_tables : (tableiter n : ℕ) (newdir : Ptr) → Cmd (Unit {0})
duplicate_tables tableiter zero newdir = pure tt
duplicate_tables tableiter (suc n) newdir = do
  duplicate_table tableiter newdir
  duplicate_tables (tableiter + 1) n newdir

-- `tablesPhysical` stands 1024 pointers into the block.
unfoldable pub duplicate_current_page_directory : Cmd Ptr
duplicate_current_page_directory = do
  (newdir, phys) ← next_block
  store_directory newdir (record {
    tables = λ _. 0;
    tables_physical = λ _. 0;
    physical_address = (phys + 0x1000) % 2 ^ 32;
  })
  duplicate_tables 0 1024 newdir
  pure newdir

-- The frames of the pages of a table from `page` on. The address that is cleared is the virtual one.
pub clear_pages : (table page n : ℕ) (block : Ptr) → Cmd (Unit {0})
clear_pages table page zero block = pure tt
clear_pages table page (suc n) block = do
  pages ← load_table block
  (if (pages page).frame == 0 then pure tt else (do
    frames ← (λ s. or_fault (clear_frame ((table * 1024 + page) * 0x1000) s.frames) s)
    (λ s. some (tt, record s { frames = frames }))))
  clear_pages table (page + 1) n block

-- `kfree` of a table.
abbrev pub free_table : Ptr → Cmd (Unit {0})
free_table block s = some (tt, record s { table = λ q. if q == block then none else s.table q })

pub clear_tables : (table n : ℕ) (dir : Ptr) → Cmd (Unit {0})
clear_tables table zero dir = pure tt
clear_tables table (suc n) dir = do
  d ← load_directory dir
  kerneldir ← get_kernel_dir
  k ← load_directory kerneldir
  (if d.tables table == k.tables table
      then pure tt
      else (do clear_pages table 0 1024 (d.tables table); free_table (d.tables table)))
  clear_tables (table + 1) n dir

unfoldable pub clear_page_directory : (dir : Ptr) → Cmd (Unit {0})
clear_page_directory dir = clear_tables 0 1024 dir
