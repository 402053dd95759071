-- ===== src/Libk/Memory/Fill.antt =====
-- `memset` fills, and `memcmp` compares.
use yanix.Common.{
  ℕ, zero, suc, ◌+◌, ◌*◌, ◌/◌, ◌%◌, ◌≤◌, ◌<◌, ◌≡◌, refl, sym, ap, ◌∙◌, some, arith, ◌==◌,
  if◌then◌else◌, length, length-set, get_elem?, get_elem?-set, get_elem?-within, lt→ltb, le→ltb,
  ne→==, set, Returns, returns, Returns-mono,
}
use native.Mathlib.Decide.{ℕ_discrete, dec_lt}
use yanix.Common.Int.{ℤ, pos, negsuc}
use yanix.Libk.Memory.{Memory, fill_bytes, zero_words, memset, compare_loop, memcmp}
use yanix.Libk.Memory.Copy.{inside, poke-ok}
use yanix.Libk.Memory.Words.{poke32-ok, length-set4, get_elem?-set4}

-- The `n` bytes from `p` on hold `b`, and the rest is as it was.
pub record Filled (mem : Memory) (p b n : ℕ) (mem' : Memory) : Type 0 where
  pub size : length mem' ≡ length mem
  pub bytes : (a : ℕ) → get_elem? mem' a ≡ (if inside p n a then some b else get_elem? mem a)

fill_bytes-Filled :
    (n : ℕ) (mem : Memory) (dst b i : ℕ)
    → dst + i + n ≤ length mem
    → Returns (Filled mem (dst + i) b n) (fill_bytes mem dst b i n)
unfolding fill_bytes
fill_bytes-Filled zero mem dst b i to = returns (record { size = refl; bytes = λ a. ground arith })
fill_bytes-Filled (suc n) mem dst b i to =
    let len = length-set mem (dst + i) b in
    let rest = fill_bytes-Filled n (set mem (dst + i) b) dst b (i + 1) (omega arith) in
    rw (poke-ok mem (dst + i) b (omega arith)) (
      Returns-mono rest λ mem' c. record {
        size = c.size ∙ len;
        bytes = λ a. ground (arith, c.bytes a, get_elem?-set mem (dst + i) a b);
      })

zero_words-Filled :
    (n : ℕ) (mem : Memory) (dst i : ℕ)
    → dst + i * 4 + n * 4 ≤ length mem
    → Returns (Filled mem (dst + i * 4) 0 (n * 4)) (zero_words mem dst i n)
unfolding zero_words
zero_words-Filled zero mem dst i to = returns (record { size = refl; bytes = λ a. ground arith })
zero_words-Filled (suc n) mem dst i to =
    let p : ℕ = dst + i * 4 in
    let m' = set (set (set (set mem p 0) (p + 1) 0) (p + 2) 0) (p + 3) 0 in
    let len = length-set4 mem p 0 0 0 0 in
    let rest = zero_words-Filled n m' dst (i + 1) (omega arith) in
    rw (poke32-ok mem p 0 0 0 0 (omega arith)) (
      Returns-mono rest λ mem' c. record {
        size = c.size ∙ len;
        bytes = λ a. ground (arith, c.bytes a, get_elem?-set4 mem p 0 0 0 0 a (omega arith));
      })

-- How many bytes `memset` fills: at value 0 only whole words.
abbrev pub filled : (value size : ℕ) → ℕ
filled value size = if value == 0 then size / 4 * 4 else size

-- `memset` within memory never faults: it fills the block with the low byte of the value; but at
-- value 0 the last `size % 4` bytes keep what they held.
pub memset-Filled :
    (mem : Memory) (dest value size : ℕ)
    → dest + size ≤ length mem
    → Returns (Filled mem dest (value % 256) (filled value size)) (memset mem dest value size)
unfolding memset
memset-Filled mem dest value size to = elim (ℕ_discrete value 0) [
  | yes null ↦ rw null (
      Returns-mono (zero_words-Filled (size / 4) mem dest 0 (omega arith))
        λ mem' c. record { size = c.size; bytes = λ a. ground (arith, c.bytes a) })
  | no other ↦ rw (ne→== value 0 other) (
      Returns-mono (fill_bytes-Filled size mem dest (value % 256) 0 (omega arith))
        λ mem' c. record { size = c.size; bytes = λ a. ground (arith, c.bytes a) })
]

-- The sign of the first difference of the `n` bytes at `a` and at `b`.
pub data Compared (mem : Memory) (a b n : ℕ) : ℤ → Type 0 where
  same :
      ((i : ℕ) → i < n → get_elem? mem (a + i) ≡ get_elem? mem (b + i)) → Compared mem a b n (pos 0)
  below :
      (i x y : ℕ)
      → i < n
      → ((j : ℕ) → j < i → get_elem? mem (a + j) ≡ get_elem? mem (b + j))
      → get_elem? mem (a + i) ≡ some x
      → get_elem? mem (b + i) ≡ some y
      → x < y
      → Compared mem a b n (negsuc 0)
  above :
      (i x y : ℕ)
      → i < n
      → ((j : ℕ) → j < i → get_elem? mem (a + j) ≡ get_elem? mem (b + j))
      → get_elem? mem (a + i) ≡ some x
      → get_elem? mem (b + i) ≡ some y
      → y < x
      → Compared mem a b n (pos 1)

compare_loop-Compared :
    (n : ℕ) (mem : Memory) (a b i total : ℕ)
    → i + n ≡ total
    → a + total ≤ length mem
    → b + total ≤ length mem
    → ((j : ℕ) → j < i → get_elem? mem (a + j) ≡ get_elem? mem (b + j))
    → Returns (Compared mem a b total) (compare_loop mem a b i n)
unfolding compare_loop
compare_loop-Compared zero mem a b i total e ta tb before =
    returns (same λ j lt. before j (omega arith))
compare_loop-Compared (suc n) mem a b i total e ta tb before =
    let (x, ax) = get_elem?-within mem (a + i) (omega arith) in
    let (y, by') = get_elem?-within mem (b + i) (omega arith) in
    elim (dec_lt x y) [
      | yes lt ↦ rw (ax, by', lt→ltb x y lt) (returns (below i x y (omega arith) before ax by' lt))
      | no ge ↦ elim (dec_lt y x) [
        | yes gt ↦
            rw (ax, by', le→ltb x y (omega arith), lt→ltb y x gt)
              (returns (above i x y (omega arith) before ax by' gt))
        | no le ↦
            (let eq : x ≡ y = omega arith in
              rw (ax, by', le→ltb x y (omega arith), le→ltb y x (omega arith))
                (compare_loop-Compared n mem a b (i + 1) total (omega arith) ta tb λ j lt.
                  elim (ℕ_discrete j i) [
                    | yes here ↦ rw here (ax ∙ ap some eq ∙ sym by')
                    | no ne ↦ before j (omega arith)
                  ]))
      ]
    ]

-- `memcmp` within memory never faults: it is 0 just where the blocks hold the same bytes, and else
-- -1 or 1 as the first byte that differs is smaller or larger in the first block.
pub memcmp-Compared :
    (mem : Memory) (a b size : ℕ)
    → a + size ≤ length mem
    → b + size ≤ length mem
    → Returns (Compared mem a b size) (memcmp mem a b size)
unfolding memcmp
memcmp-Compared mem a b size ta tb =
    compare_loop-Compared size mem a b 0 size (omega arith) ta tb (λ j lt. absurd (omega arith))
