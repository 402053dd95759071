-- ===== src/Libk/Strings.antt =====
-- kernel/libk/string/string.c, the calls on strings that end in a zero byte. The walks get as much fuel as memory has bytes: they fault at its end before they run
-- out. A pointer is an index into memory, and 0 the null pointer.
pub mod Terminated
pub mod Place
pub mod Reverse
use yanix.Common.{
  ℕ, zero, suc, ◌+◌, ◌-◌, ◌*◌, ◌/◌, ◌%◌, ◌^◌, ◌==◌, ltb, leb, if◌then◌else◌, Bool, true, false, not,
  ◌&&◌, ◌||◌, Option, none, some, List, length, get_elem?, set, ◌>>=◌,
}
use yanix.Common.Int.{ℤ, pos, negsuc, ltb_ℤ, signed32}
use yanix.Libk.Memory.{Memory, poke}

-- `size_t` subtraction.
abbrev pub sub32 : ℕ → ℕ → ℕ
sub32 a b = (a + 2 ^ 32 - b) % 2 ^ 32

-- The number of non-zero bytes from `str[len]` on, and `len`.
pub strlen_loop : Memory → (str len fuel : ℕ) → Option ℕ
strlen_loop mem str len zero = none
strlen_loop mem str len (suc fuel) = do
  b ← get_elem? mem (str + len)
  let rest = strlen_loop mem str (len + 1) fuel
  if b == 0 then some len else rest

-- `assert(str)` stops the kernel at the null pointer.
unfoldable pub strlen : Memory → (str : ℕ) → Option ℕ
strlen mem str = if str == 0 then none else strlen_loop mem str 0 (length mem)

-- The swaps of `reverse`, which ends where the indices meet.
pub reverse_loop : Memory → (str i j fuel : ℕ) → Option Memory
reverse_loop mem str i j zero = some mem
reverse_loop mem str i j (suc fuel) =
    if ltb i j
    then (do
      b ← get_elem? mem (str + i)
      c ← get_elem? mem (str + j)
      mem ← poke mem (str + i) c
      mem ← poke mem (str + j) b
      reverse_loop mem str (i + 1) (j - 1) fuel)
    else some mem

-- For the empty string `j` is -1 and the loop does not run, as at 0.
unfoldable pub reverse : Memory → (str : ℕ) → Option Memory
reverse mem str = do l ← strlen mem str; reverse_loop mem str 0 (l - 1) l

unfoldable pub append : Memory → (str character : ℕ) → Option (ℕ × Memory)
append mem str character = do
  l ← strlen mem str
  mem ← poke mem (str + l) character
  mem ← poke mem (str + (l + 1)) 0
  some (l + 1, mem)

unfoldable pub remove : Memory → (str length : ℕ) → Option (ℤ × Memory)
remove mem str length = do
  l ← strlen mem str
  if ltb_ℤ (signed32 l) (signed32 length)
      then some (negsuc 0, mem)
      else (do mem ← poke mem (str + sub32 l length) 0; some (pos (sub32 l length), mem))

-- `str[i + 1] = str[i]` for the `n` indices `i` from `location + n` down.
pub shift_up : Memory → (str location n : ℕ) → Option Memory
shift_up mem str location zero = some mem
shift_up mem str location (suc n) = do
  b ← get_elem? mem (str + (location + suc n))
  mem ← poke mem (str + (location + suc n + 1)) b
  shift_up mem str location n

unfoldable pub insert : Memory → (str location character : ℕ) → Option (ℤ × Memory)
insert mem str location character = do
  l ← strlen mem str
  if ltb l location then some (negsuc 0, mem) else (do
    mem ← shift_up mem str location (l - location)
    mem ← poke mem (str + location) character
    some (pos (l + 1), mem))

-- The index of the first match in the `n` bytes from byte `i` on.
pub find_loop : Memory → (str character i n : ℕ) → Option ℤ
find_loop mem str character i zero = some (negsuc 0)
find_loop mem str character i (suc n) = do
  b ← get_elem? mem (str + i)
  let rest = find_loop mem str character (i + 1) n
  if b == character then some (pos i) else rest

unfoldable pub find : Memory → (str character : ℕ) → Option ℤ
find mem str character = do l ← strlen mem str; find_loop mem str character 0 l

-- The difference of two bytes, as an `int`.
abbrev pub difference : ℕ → ℕ → ℤ
difference a b = if ltb a b then negsuc (b - a - 1) else pos (a - b)

pub strcmp_loop : Memory → (x y fuel : ℕ) → Option ℤ
strcmp_loop mem x y zero = none
strcmp_loop mem x y (suc fuel) = do
  a ← get_elem? mem x
  b ← get_elem? mem y
  let rest = strcmp_loop mem (x + 1) (y + 1) fuel
  if a == 0 || not (a == b) then some (difference a b) else rest

unfoldable pub strcmp : Memory → (x y : ℕ) → Option ℤ
strcmp mem x y = strcmp_loop mem x y (length mem)

-- The pointer to the first match, or null.
pub strchr_loop : Memory → (str c fuel : ℕ) → Option ℕ
strchr_loop mem str c zero = none
strchr_loop mem str c (suc fuel) = do
  b ← get_elem? mem str
  let rest = strchr_loop mem (str + 1) c fuel
  if b == 0 then some 0 else if b == c then some str else rest

unfoldable pub strchr : Memory → (str c : ℕ) → Option ℕ
strchr mem str c = strchr_loop mem str c (length mem)

-- The last match in the first `n` bytes, or null.
pub last_loop : Memory → (str c n : ℕ) → Option ℕ
last_loop mem str c zero = some 0
last_loop mem str c (suc n) = do
  b ← get_elem? mem (str + n)
  let rest = last_loop mem str c n
  if b == c then some (str + n) else rest

unfoldable pub strchr_r : Memory → (str c : ℕ) → Option ℕ
strchr_r mem str c = do l ← strlen mem str; last_loop mem str c (l + 1)

-- `while (*str) *dest++ = *str++; *dest = 0`, and where `dest` is left.
pub copy_loop : Memory → (dest str fuel : ℕ) → Option (ℕ × Memory)
copy_loop mem dest str zero = none
copy_loop mem dest str (suc fuel) = do
  b ← get_elem? mem str
  if b == 0
      then (do mem ← poke mem dest 0; some (dest, mem))
      else (do mem ← poke mem dest b; copy_loop mem (dest + 1) (str + 1) fuel)

unfoldable pub strcpy : Memory → (dest src : ℕ) → Option (ℕ × Memory)
strcpy mem dest src = copy_loop mem dest src (length mem)

unfoldable pub strcat : Memory → (buf str : ℕ) → Option (ℕ × Memory)
strcat mem buf str = do l ← strlen mem buf; copy_loop mem (buf + l) str (length mem)

-- `max` is not negative; without the room for it no zero byte is written.
pub bounded_loop : Memory → (dest str i max fuel : ℕ) → Option (ℕ × Memory)
bounded_loop mem dest str i max zero = none
bounded_loop mem dest str i max (suc fuel) = do
  b ← get_elem? mem str
  if b == 0
      then (do mem ← poke mem dest 0; some (i, mem))
      else if i == max
      then some (i, mem)
      else (do mem ← poke mem dest b; bounded_loop mem (dest + 1) (str + 1) (i + 1) max fuel)

unfoldable pub strcpy_s : Memory → (dest str max : ℕ) → Option (ℕ × Memory)
strcpy_s mem dest str max = bounded_loop mem dest str 0 max (length mem)
