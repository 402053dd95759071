-- ===== src/Libk/Numbers.antt =====
-- kernel/libk/stdlib/stdlib.c, and `int_to_string` of kernel/libk/string/string.c: numbers as strings
-- in memory.
pub mod Digits
pub mod RoundTrip
use yanix.Common.{
  ℕ, zero, suc, ◌+◌, ◌-◌, ◌*◌, ◌/◌, ◌%◌, ◌^◌, ◌==◌, ltb, leb, if◌then◌else◌, Bool, true, false, not,
  ◌&&◌, ◌||◌, Option, none, some, List, length, get_elem?, set, ◌>>=◌, ◌>>◌, check,
}
use yanix.Common.Int.{ℤ, pos, negsuc}
use yanix.Libk.Memory.{Memory, poke}
use yanix.Libk.Strings.{reverse}

-- '0' and '9'.
abbrev pub digit0 : ℕ
digit0 = 48

abbrev pub digit9 : ℕ
digit9 = 57

-- A signed overflow faults.
pub atoi_loop : Memory → (str num fuel : ℕ) → Option ℕ
atoi_loop mem str num zero = none
atoi_loop mem str num (suc fuel) = do
  b ← get_elem? mem str
  if b == 0 then some num else if ltb digit9 b || ltb b digit0 then some num else (do
    check (ltb (num * 10 + (b - digit0)) (2 ^ 31))
    atoi_loop mem (str + 1) (num * 10 + (b - digit0)) fuel)

unfoldable pub atoi : Memory → (str : ℕ) → Option ℕ
atoi mem str = atoi_loop mem str 0 (length mem)

-- `do { str[i++] = '0' + num % 10; num /= 10; } while (num > 0 && i < max)`, and where `i` is left.
pub put_digits : Memory → (str i num max fuel : ℕ) → Option (ℕ × Memory)
put_digits mem str i num max zero = none
put_digits mem str i num max (suc fuel) = do
  mem ← poke mem (str + i) (digit0 + num % 10)
  if ltb 0 (num / 10) && ltb (i + 1) max
      then put_digits mem str (i + 1) (num / 10) max fuel
      else some (i + 1, mem)

-- Of a negative number, only the remainder by ten is written, below '0'.
unfoldable pub itoa : Memory → (num : ℤ) (str max : ℕ) → Option Memory
itoa mem (pos num) str max = do
  (i, mem) ← put_digits mem str 0 num max (length mem)
  mem ← poke mem (str + i) 0
  reverse mem str
itoa mem (negsuc n) str max = do
  mem ← poke mem str (digit0 - suc n % 10)
  mem ← poke mem (str + 1) 0
  reverse mem str

-- There is no `max` here: `2 ^ 32` is past every index.
unfoldable pub int_to_string : Memory → (n : ℤ) (str : ℕ) → Option Memory
int_to_string mem (pos n) str = do
  (i, mem) ← put_digits mem str 0 n (2 ^ 32) (length mem)
  mem ← poke mem (str + i) 0
  reverse mem str
int_to_string mem (negsuc n) str = do
  check (ltb (suc n) (2 ^ 31))
  (i, mem) ← put_digits mem str 0 (suc n) (2 ^ 32) (length mem)
  mem ← poke mem (str + i) 45
  mem ← poke mem (str + (i + 1)) 0
  reverse mem str
