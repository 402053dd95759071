-- ===== src/Space/Tests.antt =====
-- Runs of the mapping of address spaces of kernel/mm/paging.c.
use yanix.Common.{
  ℕ, ◌≤◌, ◌<◌, ◌⊎◌, ◌≡◌, ◌≢◌, refl, true, false, none, some, [], ◌∷◌, arith, ◌==◌, if◌then◌else◌,
  ne→==, replicate,
}
use native.Mathlib.Decide.{ℕ_discrete}
use yanix.Common.Int.{pos}
use yanix.Paging.{Frames, no_page}
use yanix.Paging.Bits.{IsValid}
use yanix.Space.{Directory, Machine, Table, virt_to_phys_from_dir}
use yanix.Space.Ranges.{remap_memory_block, identity_map_memory_block}
use yanix.Space.Ends.{remap_pages, remap_memory_block-ends}
use yanix.Space.Entries.{Space}
use yanix.Space.Fault.{zeroed, page_fault, Resolved, page_fault-Resolved}
use yanix.Space.Fork.{copy_page}
use yanix.Space.Fork.Page.{Copied, copy_page-Copied}
use yanix.Space.Identity.{identity_map-translates}

-- A directory without tables at address 8, and frames for 256 pages.
abbrev empty : Directory
empty = record { tables = λ _. 0; tables_physical = λ _. 0; physical_address = 0x2000 }

abbrev frames : Frames
frames = record { words = replicate 8 (replicate 32 false); nframes = 256 }

abbrev machine : Machine
machine = record {
  directory = λ p. if p == 8 then some empty else none;
  table = λ _. none;
  ram = λ _. [];
  heap = (0x10000, 0x10000) ∷ (0x11000, 0x11000) ∷ (0x12000, 0x12000) ∷ [];
  frames = frames;
  current = 8;
  kernel = 8;
  cr3 = 0;
  errno = none;
}

frames-IsValid : IsValid frames
frames-IsValid = record {
  wide = (refl, (refl, (refl, (refl, (refl, (refl, (refl, (refl, tt))))))));
  covers = omega arith;
  small = omega arith;
}

machine-Space : Space machine 8 empty
machine-Space = record {
  at = refl;
  live = λ i used. absurd (used refl);
  apart = λ i j used same. absurd (used refl);
  fresh = (
    omega arith,
    (λ i e. omega (arith, e)),
    (omega arith, (omega arith, tt)),
    (
      omega arith,
      (λ i e. omega (arith, e)),
      (omega arith, tt),
      (omega arith, (λ i e. omega (arith, e)), tt, tt),
    ),
  );
}

identity_map-translates_example :
    (s' : Machine) × (identity_map_memory_block 4 0x1000 0x3fff true false 8 machine
      ≡ some (pos 0, s'))
    × ((v : ℕ) → 0x1000 ≤ v → v ≤ 0x3fff → 0x1000 ≤ v → virt_to_phys_from_dir v 8 s' ≡ some (v, s'))
identity_map-translates_example =
    identity_map-translates 4 machine 8 empty 0x1000 0x3fff true false machine-Space frames-IsValid
      (omega arith) (omega arith) (omega arith) (omega arith) (omega arith) (omega arith)

-- The page with number 5 over frame 5, and the buffer page over frame 7.
abbrev low_table : Table
low_table i =
    if i == 5 then record { present = true; rw = true; user = true; frame = 5 } else no_page

abbrev buffer_table : Table
buffer_table i =
    if i == 256 then record { present = true; rw = false; user = false; frame = 7 } else no_page

abbrev old : Directory
old = record {
  tables = λ i. if i == 0 then 0x20000 else if i == 4 then 0x21000 else 0;
  tables_physical = λ _. 0;
  physical_address = 0x2000;
}

abbrev new : Directory
new = record {
  tables = λ i. if i == 0 then 0x22000 else 0;
  tables_physical = λ _. 0;
  physical_address = 0x3000;
}

abbrev forking : Machine
forking = record machine {
  directory = λ p. if p == 8 then some old else if p == 9 then some new else none;
  table = λ p.
      (if p == 0x20000
        then some low_table
        else if p == 0x21000
        then some buffer_table
        else if p == 0x22000
        then some (λ _. no_page)
        else none);
  ram = λ f. f ∷ [];
  heap = [];
}

old-live :
    (i : ℕ) → old.tables i ≢ 0 → (pages : Table) × (forking.table (old.tables i) ≡ some pages)
old-live i used = elim (ℕ_discrete i 0) [
  | yes e ↦ (low_table, rw e refl)
  | no ne ↦ elim (ℕ_discrete i 4) [
    | yes e ↦ (buffer_table, rw e refl)
    | no ne' ↦ absurd (used (rw (ne→== i 0 ne, ne→== i 4 ne') refl))
  ]
]

old-apart : (i j : ℕ) → old.tables i ≢ 0 → old.tables i ≡ old.tables j → i ≡ j
old-apart i j used same = ground (arith, used, same)

old-off : (i : ℕ) → old.tables i ≢ 0x22000
old-off i e = ground (arith, e)

forking-Space : Space forking 8 old
forking-Space = record { at = refl; live = old-live; apart = old-apart; fresh = tt }

copy_page-Copied_example :
    (s' : Machine) × (f : ℕ) × (copy_page 0x5000 9 forking ≡ some (tt, s'))
    × Copied forking old new 5 (low_table 5) f s'
copy_page-Copied_example =
    copy_page-Copied forking old new 9 0x5000 5 0 (low_table 5) (buffer_table 256) no_page
      forking-Space refl refl (λ e. omega (arith, e))
      ((λ e. omega (arith, e)), low_table, refl, refl)
      ((λ e. omega (arith, e)), buffer_table, refl, refl)
      ((λ e. omega (arith, e)), (λ _. no_page), refl, refl) refl old-off frames-IsValid
      (omega arith) refl refl refl

-- A fault at 0x6123 of a program in user mode.
page_fault-Resolved_example :
    (s' : Machine) × (d' : Directory) × (page_fault 0x6123 6 none
        (record { program_start = 0x4000; program_break = 0x8000; ring = 3 })
        machine
      ≡ some (zeroed, s'))
    × Resolved machine empty 6 true s' d'
page_fault-Resolved_example =
    page_fault-Resolved machine empty 0x6123 0 machine-Space (omega arith) frames-IsValid
      (λ q m. absurd (m.0 refl)) (omega arith) refl 6
      (record { program_start = 0x4000; program_break = 0x8000; ring = 3 }) refl (omega arith)
      (omega arith)

remap_memory_block-ends_example :
    ((0x2000 < 0xfffff000)
      × (remap_memory_block 5 0x1000 0x2000 true false 8 machine
          ≡ remap_pages 2 0x1000 true false 8 machine))
    ⊎ ((0xfffff000 ≤ 0x2000) × (remap_memory_block 5 0x1000 0x2000 true false 8 machine ≡ none))
remap_memory_block-ends_example =
    remap_memory_block-ends 5 0x1000 0x2000 true false 8 machine (omega arith) (omega arith)
      (omega arith) (omega arith)
