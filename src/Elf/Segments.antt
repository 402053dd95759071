-- ===== src/Elf/Segments.antt =====
-- The memory of a loaded program: the bytes of each segment, and zeros up to its size.
use yanix.Common.{
  ℕ, ◌+◌, ◌*◌, ◌/◌, ◌≤◌, ◌<◌, ◌≡◌, ◌≢◌, refl, ◌⊎◌, true, List, [], ◌∷◌, ◌++◌, ◌^◌, ◌==◌, ltb,
  if◌then◌else◌, length, get_elem?, le→ltb,
}
use yanix.Elf.{ProgramHeader, Program, byte_or, load_pheader, load_segments}

-- Every segment ends below 2 ^ 32.
abbrev pub Bounded : List ProgramHeader → Type 0
Bounded [] = Unit {0}
Bounded (ph ∷ phs) = (ph.vaddr + ph.memsize < 2 ^ 32) × Bounded phs

module _ (read : (offset n : ℕ) → List ℕ) where
  -- What byte `i` of a segment is to be.
  abbrev pub segment_byte : ProgramHeader → ℕ → ℕ
  segment_byte ph i =
      if ltb i ph.filesize then byte_or (get_elem? (read ph.offset ph.filesize) i) 0 else 0

  -- No segment is larger in the file than in memory, and no read gives more than was asked for.
  abbrev pub Fits : List ProgramHeader → Type 0
  Fits [] = Unit {0}
  Fits (ph ∷ phs) =
      (ph.filesize ≤ ph.memsize) × (length (read ph.offset ph.filesize) ≤ ph.filesize) × Fits phs

  -- A byte that the clearing reaches, or that the file has.
  abbrev pub Reached : ProgramHeader → ℕ → Type 0
  Reached ph i = (i < ph.memsize / 4 * 4) ⊎ (i < length (read ph.offset ph.filesize))

  -- No segment of the list that is loaded has the address.
  abbrev pub Away : ℕ → List ProgramHeader → Type 0
  Away a [] = Unit {0}
  Away a (ph ∷ phs) = ((ph.type ≢ 1) ⊎ ((a < ph.vaddr) ⊎ (ph.vaddr + ph.memsize ≤ a))) × Away a phs

  pub Fits-append : (xs ys : List ProgramHeader) → Fits (xs ++ ys) → Fits xs × Fits ys
  Fits-append [] ys h = (tt, h)
  Fits-append (ph ∷ xs) ys (le, short, h) = let (l, r) = Fits-append xs ys h in ((le, short, l), r)

  -- The loop over a table runs over its front and then over the rest.
  pub load_segments-append :
      (xs ys : List ProgramHeader) (p : Program)
      → Fits xs
      → (p' : Program) × (load_segments read (xs ++ ys) p ≡ load_segments read ys p')
  unfolding load_segments
  load_segments-append [] ys p fits = (p, refl)
  load_segments-append (ph ∷ xs) ys p (le, short, fits) =
      let (p', run) =
        load_segments-append xs ys (if ph.type == 1 then load_pheader read ph p else p) fits in
      (p', rw (le→ltb ph.memsize ph.filesize le) run)

pub load_segments-all :
    (read : (offset n : ℕ) → List ℕ) (phs : List ProgramHeader) (p : Program)
    → Fits read phs
    → (p' : Program) × (load_segments read phs p ≡ (true, p'))
unfolding load_segments
load_segments-all read [] p fits = (p, refl)
load_segments-all read (ph ∷ phs) p (le, short, fits) =
    let (p', run) =
      load_segments-all read phs (if ph.type == 1 then load_pheader read ph p else p) fits in
    (p', rw (le→ltb ph.memsize ph.filesize le) run)
