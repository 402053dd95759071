-- ===== src/Elf/Break.antt =====
-- `load_elf_into_mem`: the bounds of the program, and the files that it refuses.
use yanix.Common.{
  ℕ, ◌+◌, ◌^◌, ◌≤◌, ◌<◌, ◌≡◌, refl, ◌∙◌, inl, inr, ◌⊎◌, true, false, some, List, [], ◌∷◌, ◌++◌,
  arith, ltb, if◌then◌else◌, Bool-cases, lt→ltb, le→ltb,
}
use native.Mathlib.Decide.{dec_lt}
use native.Mathlib.Nat.{mod-eq_of_lt}
use yanix.Elf.{
  Header, ProgramHeader, Program, enoexec, is_supported, elf_check_support, load_segments, end_of,
  find_break, find_start, loop_over_program_table, load_elf_into_mem,
}
use yanix.Elf.Segments.{Bounded, Fits, load_segments-append, load_segments-all}

find_break-above : (phs : List ProgramHeader) (b : ℕ) → b ≤ find_break phs b
find_break-above [] b = omega arith
find_break-above (ph ∷ phs) b = elim (dec_lt b (end_of ph)) [
  | yes lt ↦ rw (lt→ltb b (end_of ph) lt) (omega (arith, find_break-above phs (end_of ph)))
  | no ge ↦ rw (le→ltb b (end_of ph) (omega arith)) (find_break-above phs b)
]

find_start-below : (phs : List ProgramHeader) (b : ℕ) → find_start phs b ≤ b
find_start-below [] b = omega arith
find_start-below (ph ∷ phs) b = elim (dec_lt ph.vaddr b) [
  | yes lt ↦ rw (lt→ltb ph.vaddr b lt) (omega (arith, find_start-below phs ph.vaddr))
  | no ge ↦ rw (le→ltb ph.vaddr b (omega arith)) (find_start-below phs b)
]

lesser-le : (a b : ℕ) → (if ltb a b then a else b) ≤ a
lesser-le a b = elim (dec_lt a b) [
  | yes lt ↦ rw (lt→ltb a b lt) (omega arith)
  | no ge ↦ rw (le→ltb a b (omega arith)) (omega arith)
]

le-greater : (a b : ℕ) → b ≤ (if ltb a b then b else a)
le-greater a b = elim (dec_lt a b) [
  | yes lt ↦ rw (lt→ltb a b lt) (omega arith)
  | no ge ↦ rw (le→ltb a b (omega arith)) (omega arith)
]

-- Every segment starts at `start` or above, and ends at `brk` or below.
abbrev pub Between : (start brk : ℕ) → List ProgramHeader → Type 0
Between start brk [] = Unit {0}
Between start brk (ph ∷ phs) =
    (start ≤ ph.vaddr) × (ph.vaddr + ph.memsize ≤ brk) × Between start brk phs

end_of-Bounded :
    (ph : ProgramHeader) → ph.vaddr + ph.memsize < 2 ^ 32 → end_of ph ≡ ph.vaddr + ph.memsize
end_of-Bounded ph lt = mod-eq_of_lt lt

find-Between :
    (phs : List ProgramHeader) (start brk : ℕ)
    → Bounded phs
    → Between (find_start phs start) (find_break phs brk) phs
find-Between [] start brk low = tt
find-Between (ph ∷ phs) start brk (lt, low) =
    let lower : ℕ = if ltb ph.vaddr start then ph.vaddr else start in
    let upper : ℕ = if ltb brk (end_of ph) then end_of ph else brk in
    let below = find_start-below phs lower in
    let above = find_break-above phs upper in
    let below' = lesser-le ph.vaddr start in
    let above' = le-greater brk (end_of ph) in
    (
      omega (arith, below, below'),
      omega (arith, above, above', end_of-Bounded ph lt),
      find-Between phs lower upper low,
    )

-- `load_elf_into_mem` of a supported program with a segment or more, which all fit and end below 2
-- ^ 32, and for which `map_mem` finds frames, returns its entry point; every segment lies between
-- the start and the break that the task keeps.
pub load_elf_into_mem-Between :
    (read : (offset n : ℕ) → List ℕ) (hdr : Header) (first : ProgramHeader)
    (rest : List ProgramHeader) (p : Program)
    → is_supported hdr ≡ true
    → Fits read (first ∷ rest)
    → Bounded (first ∷ rest)
    → (p' : Program) × (load_elf_into_mem read hdr (first ∷ rest) p ≡ some (hdr.entry, p'))
      × Between p'.program_start p'.program_break (first ∷ rest)
unfolding load_elf_into_mem loop_over_program_table elf_check_support
load_elf_into_mem-Between read hdr first rest p supported fits (lt, low) =
    let (p1, run) = load_segments-all read (first ∷ rest) p fits in
    (
      record p1 {
        program_break = find_break rest (end_of first);
        program_start = find_start rest first.vaddr;
      },
      rw (supported, run) refl,
      (
        find_start-below rest first.vaddr,
        omega (arith, find_break-above rest (end_of first), end_of-Bounded first lt),
        find-Between rest first.vaddr (end_of first) low,
      ),
    )

-- `load_elf_into_mem` returns 0, with `errno` at ENOEXEC, for a file with an unsupported header,
-- and for one with a segment that is larger in the file than in memory, behind those that fit and
-- for which `map_mem` finds frames.
pub load_elf_into_mem-refuses :
    (read : (offset n : ℕ) → List ℕ) (hdr : Header) (before after : List ProgramHeader)
    (ph : ProgramHeader) (p : Program)
    → (is_supported hdr ≡ false) ⊎ (Fits read before × (ph.memsize < ph.filesize))
    → (p' : Program) × (load_elf_into_mem read hdr (before ++ ph ∷ after) p ≡ some (0, p'))
      × (p'.errno ≡ enoexec)
unfolding load_elf_into_mem loop_over_program_table elf_check_support load_segments
load_elf_into_mem-refuses read hdr before after ph p (inl bad) =
    (record p { errno = enoexec }, rw bad refl, refl)
load_elf_into_mem-refuses read hdr before after ph p (inr (fits, large)) =
    elim (Bool-cases (is_supported hdr)) [
      | inr bad ↦ (record p { errno = enoexec }, rw bad refl, refl)
      | inl good ↦
          let (p1, run) = load_segments-append read before (ph ∷ after) p fits in
          let stop : load_segments read (before ++ ph ∷ after) p
              ≡ (false, record p1 { errno = enoexec }) =
            run ∙ rw (lt→ltb ph.memsize ph.filesize large) refl in
          (record p1 { errno = enoexec }, rw (good, stop) refl, refl)
    ]
