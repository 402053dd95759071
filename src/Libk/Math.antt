-- ===== src/Libk/Math.antt =====
-- kernel/libk/math/math.c: the rounding that the descriptor vector uses.
use yanix.Common.{ℕ, ◌+◌, ◌/◌, ◌%◌, Option, none, some, ◌==◌, if◌then◌else◌}

-- `roundup` at non-negative arguments, the only ones that it is called with: how many times `y`
-- goes into `x`, rounded up. A division by zero faults.
unfoldable pub roundup : ℕ → ℕ → Option ℕ
roundup x y = if y == 0 then none else if (x % y) == 0 then some (x / y) else some (x / y + 1)
