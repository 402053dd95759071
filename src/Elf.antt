-- ===== src/Elf.antt =====
-- kernel/yanix/execute/elf.c: the checks on an ELF header, and the segments of a program, which go
-- from its file into memory. A call faults (`none`) where it reads past the program table.
pub mod Segments
pub mod Break
pub mod Tests
use yanix.Common.{
  ℕ, zero, suc, ◌+◌, ◌-◌, ◌*◌, ◌%◌, ◌/◌, ◌^◌, Bool, true, false, not, ◌&&◌, ◌||◌, Option, none,
  some, List, [], ◌∷◌, ◌++◌, ◌==◌, ltb, leb, if◌then◌else◌, length, get_elem?, ◌>>=◌,
}

-- What the checks read of an `elf32_hdr_t`, and the entry point.
pub record Header : Type 0 where
  pub magic : ℕ
  pub bit_type : ℕ
  pub arch_type : ℕ
  pub elf_header_version : ℕ
  pub type : ℕ
  pub entry : ℕ

-- An `elf32_phdr_t`.
pub record ProgramHeader : Type 0 where
  pub type : ℕ
  pub offset : ℕ
  pub vaddr : ℕ
  pub filesize : ℕ
  pub memsize : ℕ
  pub flags : ℕ

-- The memory of the new program, the ranges that `map_mem` was called for, with whether they can be
-- written, the two bounds that the task keeps, and `errno`. `map_mem` is taken to find the frames: where
-- it does not, the `memset` behind it faults.
pub record Program : Type 0 where
  pub mem : ℕ → ℕ
  pub mapped : List (ℕ × ℕ × Bool)
  pub program_break : ℕ
  pub program_start : ℕ
  pub errno : ℕ

-- ENOEXEC of errno.h.
abbrev pub enoexec : ℕ
enoexec = 8

abbrev pub is_supported : Header → Bool
is_supported hdr =
    (hdr.magic == 0x464c457f)
    && ((hdr.bit_type == 1)
        && ((hdr.arch_type == 3) && (not (ltb hdr.elf_header_version 1) && (hdr.type == 2))))

-- False is the -1 that is returned.
unfoldable pub elf_check_support : Header → Program → Bool × Program
elf_check_support hdr p =
    if is_supported hdr then (true, p) else (false, record p { errno = enoexec })

-- `memset(vaddr, 0, n)`, which writes `n / 4` words and leaves the last `n % 4` bytes; no range wraps
-- around.
abbrev pub zero_range : (ℕ → ℕ) → (vaddr n : ℕ) → ℕ → ℕ
zero_range mem vaddr n a = if leb vaddr a && ltb a (vaddr + n / 4 * 4) then 0 else mem a

abbrev pub byte_or : Option ℕ → ℕ → ℕ
byte_or none b = b
byte_or (some c) b = c

-- The bytes, from `vaddr` on.
abbrev pub place : (ℕ → ℕ) → (vaddr : ℕ) → List ℕ → ℕ → ℕ
place mem vaddr bytes a =
    if ltb a vaddr then mem a else byte_or (get_elem? bytes (a - vaddr)) (mem a)

-- flags & ELF_W.
abbrev pub is_writable : ℕ → Bool
is_writable flags = ((flags / 2) % 2) == 1

-- `read offset n` is what a seek to the offset and a read of `n` bytes give.
module _ (read : (offset n : ℕ) → List ℕ) where
  unfoldable pub load_pheader : ProgramHeader → Program → Program
  load_pheader ph p =
      let cleared = zero_range p.mem ph.vaddr ph.memsize in
      let filled = place cleared ph.vaddr (read ph.offset ph.filesize) in
      record p {
        mem =
            if ltb ph.filesize ph.memsize
            then zero_range filled (ph.vaddr + ph.filesize) (ph.memsize - ph.filesize)
            else filled;
        mapped = (ph.vaddr, (ph.vaddr + ph.memsize) % 2 ^ 32, is_writable ph.flags) ∷ p.mapped;
      }

  -- The first loop over the table.
  pub load_segments : List ProgramHeader → Program → Bool × Program
  load_segments [] p = (true, p)
  load_segments (ph ∷ phs) p =
      if ltb ph.memsize ph.filesize
      then (false, record p { errno = enoexec })
      else load_segments phs (if ph.type == 1 then load_pheader ph p else p)

-- The end of a segment.
abbrev pub end_of : ProgramHeader → ℕ
end_of ph = (ph.vaddr + ph.memsize) % 2 ^ 32

-- The second loop, from the second segment on, for the break and the start.
abbrev pub find_break : List ProgramHeader → (pbrk : ℕ) → ℕ
find_break [] pbrk = pbrk
find_break (ph ∷ phs) pbrk = find_break phs (if ltb pbrk (end_of ph) then end_of ph else pbrk)

abbrev pub find_start : List ProgramHeader → (pstrt : ℕ) → ℕ
find_start [] pstrt = pstrt
find_start (ph ∷ phs) pstrt = find_start phs (if ltb ph.vaddr pstrt then ph.vaddr else pstrt)

unfoldable pub loop_over_program_table :
    (read : (offset n : ℕ) → List ℕ) → List ProgramHeader → Program → Option (Bool × Program)
loop_over_program_table read table p =
    let (loaded, p') = load_segments read table p in
    if loaded
    then elim table [
      | [] ↦ none
      | first ∷ rest ↦ some (
        true,
        record p' {
          program_break = find_break rest (end_of first);
          program_start = find_start rest first.vaddr;
        },
      )
    ]
    else some (false, p')

-- The entry point, or 0.
unfoldable pub load_elf_into_mem :
    (read : (offset n : ℕ) → List ℕ) → Header → List ProgramHeader → Program → Option (ℕ × Program)
load_elf_into_mem read hdr table p =
    let (supported, p) = elf_check_support hdr p in
    if supported
    then (do
      (loaded, p) ← loop_over_program_table read table p
      some (if loaded then hdr.entry else 0, p))
    else some (0, p)
