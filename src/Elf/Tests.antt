-- ===== src/Elf/Tests.antt =====
-- Runs of kernel/yanix/execute/elf.c on a program of two segments.
use yanix.Common.{ℕ, zero, suc, ◌+◌, ◌≡◌, refl, inr, some, List, [], ◌∷◌, arith}
use yanix.Elf.{Header, ProgramHeader, Program, load_elf_into_mem}
use yanix.Elf.Break.{Between, load_elf_into_mem-Between, load_elf_into_mem-refuses}

abbrev executable : Header
executable = record {
  magic = 0x464c457f;
  bit_type = 1;
  arch_type = 3;
  elf_header_version = 1;
  type = 2;
  entry = 4096;
}

-- Two bytes of the file, then two zeros.
abbrev data_segment : ProgramHeader
data_segment = record { type = 1; offset = 10; vaddr = 4096; filesize = 2; memsize = 4; flags = 6 }

abbrev text_segment : ProgramHeader
text_segment = record { type = 1; offset = 20; vaddr = 8192; filesize = 1; memsize = 1; flags = 5 }

abbrev too_large : ProgramHeader
too_large = record text_segment { filesize = 2 }

abbrev nothing : Program
nothing = record { mem = λ a. 255; mapped = []; program_break = 0; program_start = 0; errno = 0 }

-- Byte `i` of the file is `i`.
abbrev read_file : (offset n : ℕ) → List ℕ
read_file offset zero = []
read_file offset (suc n) = offset ∷ read_file (offset + 1) n

load_elf_into_mem-Between_example :
    (p' : Program) × (load_elf_into_mem read_file executable
        (data_segment ∷ text_segment ∷ [])
        nothing
      ≡ some (4096, p'))
    × Between p'.program_start p'.program_break (data_segment ∷ text_segment ∷ [])
load_elf_into_mem-Between_example =
    load_elf_into_mem-Between read_file executable data_segment (text_segment ∷ []) nothing refl
      ((omega arith, omega arith, (omega arith, omega arith, tt))) (omega arith, (omega arith, tt))

load_elf_into_mem-refuses_example :
    (p' : Program) × (load_elf_into_mem read_file executable (data_segment ∷ too_large ∷ []) nothing
      ≡ some (0, p'))
    × (p'.errno ≡ 8)
load_elf_into_mem-refuses_example =
    load_elf_into_mem-refuses read_file executable (data_segment ∷ []) [] too_large nothing
      (inr ((omega arith, omega arith, tt), omega arith))
