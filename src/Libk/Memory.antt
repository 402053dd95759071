-- ===== src/Libk/Memory.antt =====
-- kernel/libk/string/string.c, the calls on raw memory. Memory is a list of bytes and a pointer an
-- index into it; a call faults (`none`) where it reads or writes past the end.
pub mod Copy
pub mod Words
pub mod Fill
use yanix.Common.{
  ℕ, zero, suc, ◌+◌, ◌-◌, ◌*◌, ◌/◌, ◌%◌, ◌==◌, ltb, if◌then◌else◌, Option, none, some, List, length,
  get_elem?, set, ◌>>=◌,
}
use yanix.Common.Int.{ℤ, pos, negsuc}

abbrev pub Memory : Type 0
Memory = List ℕ

-- `*p = b`.
pub poke : Memory → (p b : ℕ) → Option Memory
poke mem p b = if ltb p (length mem) then some (set mem p b) else none

-- The loop of `memcmp` over `n` bytes from byte `i` on.
pub compare_loop : Memory → (a b i n : ℕ) → Option ℤ
compare_loop mem a b i zero = some (pos 0)
compare_loop mem a b i (suc n) = do
  x ← get_elem? mem (a + i)
  y ← get_elem? mem (b + i)
  let rest = compare_loop mem a b (i + 1) n
  if ltb x y then some (negsuc 0) else if ltb y x then some (pos 1) else rest

unfoldable pub memcmp : Memory → (a b size : ℕ) → Option ℤ
memcmp mem a b size = compare_loop mem a b 0 size

-- `dst[i] = src[i]` for `n` bytes from byte `i` on.
pub copy_up : Memory → (dst src i n : ℕ) → Option Memory
copy_up mem dst src i zero = some mem
copy_up mem dst src i (suc n) = do
  b ← get_elem? mem (src + i)
  mem' ← poke mem (dst + i) b
  copy_up mem' dst src (i + 1) n

-- `dst[i - 1] = src[i - 1]` for `i` from `n` down to 1.
pub copy_down : Memory → (dst src n : ℕ) → Option Memory
copy_down mem dst src zero = some mem
copy_down mem dst src (suc n) = do
  b ← get_elem? mem (src + n)
  mem' ← poke mem (dst + n) b
  copy_down mem' dst src n

-- `*(uint32_t *) p = w`, for the four bytes of `w`.
pub poke32 : Memory → (p b0 b1 b2 b3 : ℕ) → Option Memory
poke32 mem p b0 b1 b2 b3 = do
  mem ← poke mem p b0
  mem ← poke mem (p + 1) b1
  mem ← poke mem (p + 2) b2
  poke mem (p + 3) b3

-- `destWord[i] = sourceWord[i]` for `n` words from word `i` on: a word is read before it is written.
pub copy_words : Memory → (dst src i n : ℕ) → Option Memory
copy_words mem dst src i zero = some mem
copy_words mem dst src i (suc n) = do
  b0 ← get_elem? mem (src + i * 4)
  b1 ← get_elem? mem (src + i * 4 + 1)
  b2 ← get_elem? mem (src + i * 4 + 2)
  b3 ← get_elem? mem (src + i * 4 + 3)
  mem' ← poke32 mem (dst + i * 4) b0 b1 b2 b3
  copy_words mem' dst src (i + 1) n

unfoldable pub memcpy : Memory → (dest source size : ℕ) → Option Memory
memcpy mem dest source size = do
  let dwords = size / 4
  mem' ← copy_words mem dest source 0 dwords
  copy_up mem' (dest + dwords * 4) (source + dwords * 4) 0 (size % 4)

unfoldable pub memmove : Memory → (dst src size : ℕ) → Option Memory
memmove mem dst src size =
    if ltb dst src then copy_up mem dst src 0 size else copy_down mem dst src size

-- `dst[i] = value` for `n` bytes from byte `i` on.
pub fill_bytes : Memory → (dst value i n : ℕ) → Option Memory
fill_bytes mem dst value i zero = some mem
fill_bytes mem dst value i (suc n) = do
  mem' ← poke mem (dst + i) value
  fill_bytes mem' dst value (i + 1) n

-- `dst[i] = 0` for `n` words from word `i` on.
pub zero_words : Memory → (dst i n : ℕ) → Option Memory
zero_words mem dst i zero = some mem
zero_words mem dst i (suc n) = do
  mem' ← poke32 mem (dst + i * 4) 0 0 0 0
  zero_words mem' dst (i + 1) n

-- The value is the bit pattern of an `int`.
unfoldable pub memset : Memory → (dest value size : ℕ) → Option Memory
memset mem dest value size =
    if value == 0
    then zero_words mem dest 0 (size / 4)
    else fill_bytes mem dest (value % 256) 0 size
