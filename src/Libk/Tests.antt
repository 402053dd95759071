-- ===== src/Libk/Tests.antt =====
-- Runs of kernel/libk/string/string.c on a small memory.
use yanix.Common.{ℕ, ◌≡◌, refl, some, List, [], ◌∷◌, arith, Returns}
use yanix.Libk.Memory.{Memory, memmove}
use yanix.Libk.Memory.Copy.{Copied, memmove-Copied}
use yanix.Libk.Numbers.{itoa, atoi}
use yanix.Libk.Numbers.Digits.{decimal}
use yanix.Libk.Numbers.RoundTrip.{atoi-itoa}
use yanix.Common.Int.{pos}
use yanix.Libk.Strings.Terminated.{Str}

-- "abc" at address 1, "de" at address 8, and room behind both.
abbrev memory : Memory
memory = 0 ∷ 97 ∷ 98 ∷ 99 ∷ 0 ∷ 0 ∷ 0 ∷ 0 ∷ 100 ∷ 101 ∷ 0 ∷ 0 ∷ 0 ∷ 0 ∷ 0 ∷ 0 ∷ []

abbrev abc : List ℕ
abc = 97 ∷ 98 ∷ 99 ∷ []

abbrev de : List ℕ
de = 100 ∷ 101 ∷ []

abc-Str : Str memory 1 abc
abc-Str = (refl, omega arith, (refl, omega arith, (refl, omega arith, refl)))

de-Str : Str memory 8 de
de-Str = (refl, omega arith, (refl, omega arith, refl))

memmove-Copied_example : Returns (Copied memory 2 1 5) (memmove memory 2 1 5)
memmove-Copied_example = memmove-Copied memory 2 1 5 (omega arith) (omega arith)

atoi-itoa_example :
    (mem' : Memory) × (itoa memory (pos 407) 8 4 ≡ some mem')
    × Str mem' 8 (decimal 407)
    × (atoi mem' 8 ≡ some 407)
atoi-itoa_example = atoi-itoa memory 407 8 4 (omega arith) (omega arith) (omega arith) (omega arith)
