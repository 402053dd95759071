-- ===== src/Libk/Memory/Words.antt =====
-- `memcpy` copies blocks that do not overlap, four bytes at a time.
use yanix.Common.{
  ℕ, zero, suc, ◌+◌, ◌-◌, ◌*◌, ◌/◌, ◌%◌, ◌≤◌, ◌<◌, ◌≡◌, refl, ◌∙◌, ◌⊎◌, some, arith, ◌==◌,
  if◌then◌else◌, length, length-set, get_elem?, get_elem?-set, get_elem?-within, set, Returns,
  returns, Returns-mono, Returns-bind,
}
use yanix.Libk.Memory.{Memory, copy_up, copy_words, poke32, memcpy}
use yanix.Libk.Memory.Copy.{Copied, poke-ok, copy_up-Copied}

-- The blocks do not overlap.
abbrev pub Apart : (dst src n : ℕ) → Type 0
Apart dst src n = (src + n ≤ dst) ⊎ (dst + n ≤ src)

pub poke32-ok :
    (mem : Memory) (p b0 b1 b2 b3 : ℕ)
    → p + 4 ≤ length mem
    → poke32 mem p b0 b1 b2 b3
      ≡ some (set (set (set (set mem p b0) (p + 1) b1) (p + 2) b2) (p + 3) b3)
unfolding poke32
poke32-ok mem p b0 b1 b2 b3 le =
    let m1 = set mem p b0 in
    let m2 = set m1 (p + 1) b1 in
    let m3 = set m2 (p + 2) b2 in
    let l1 = length-set mem p b0 in
    let l2 = length-set m1 (p + 1) b1 in
    let l3 = length-set m2 (p + 2) b2 in
    rw (
      poke-ok mem p b0 (omega arith),
      poke-ok m1 (p + 1) b1 (omega arith),
      poke-ok m2 (p + 2) b2 (omega arith),
      poke-ok m3 (p + 3) b3 (omega arith),
    )

pub length-set4 :
    (mem : Memory) (p b0 b1 b2 b3 : ℕ)
    → length (set (set (set (set mem p b0) (p + 1) b1) (p + 2) b2) (p + 3) b3) ≡ length mem
length-set4 mem p b0 b1 b2 b3 =
    length-set (set (set (set mem p b0) (p + 1) b1) (p + 2) b2) (p + 3) b3
    ∙ length-set (set (set mem p b0) (p + 1) b1) (p + 2) b2
    ∙ length-set (set mem p b0) (p + 1) b1
    ∙ length-set mem p b0

pub get_elem?-set4 :
    (mem : Memory) (p b0 b1 b2 b3 a : ℕ)
    → p + 4 ≤ length mem
    → get_elem? (set (set (set (set mem p b0) (p + 1) b1) (p + 2) b2) (p + 3) b3) a ≡ (
        if p == a
        then some b0
        else if p + 1 == a
        then some b1
        else if p + 2 == a
        then some b2
        else if p + 3 == a
        then some b3
        else get_elem? mem a)
get_elem?-set4 mem p b0 b1 b2 b3 a le =
    let m1 = set mem p b0 in
    let m2 = set m1 (p + 1) b1 in
    let m3 = set m2 (p + 2) b2 in
    ground (
      arith,
      length-set mem p b0,
      length-set m1 (p + 1) b1,
      length-set m2 (p + 2) b2,
      get_elem?-set m3 (p + 3) a b3,
      get_elem?-set m2 (p + 2) a b2,
      get_elem?-set m1 (p + 1) a b1,
      get_elem?-set mem p a b0,
    )

-- One word.
word-Copied :
    {mem : Memory} {b0 b1 b2 b3 : ℕ} (dst src : ℕ)
    → dst + 4 ≤ length mem
    → get_elem? mem src ≡ some b0
    → get_elem? mem (src + 1) ≡ some b1
    → get_elem? mem (src + 2) ≡ some b2
    → get_elem? mem (src + 3) ≡ some b3
    → Copied mem dst src 4 (set (set (set (set mem dst b0) (dst + 1) b1) (dst + 2) b2) (dst + 3) b3)
word-Copied {mem} {b0} {b1} {b2} {b3} dst src le e0 e1 e2 e3 = record {
  size = length-set4 mem dst b0 b1 b2 b3;
  bytes = λ a. ground (arith, get_elem?-set4 mem dst b0 b1 b2 b3 a le);
}

copy_words-Copied :
    (n : ℕ) (mem : Memory) (dst src i : ℕ)
    → Apart (dst + i * 4) (src + i * 4) (n * 4)
    → src + i * 4 + n * 4 ≤ length mem
    → dst + i * 4 + n * 4 ≤ length mem
    → Returns (Copied mem (dst + i * 4) (src + i * 4) (n * 4)) (copy_words mem dst src i n)
unfolding copy_words
copy_words-Copied zero mem dst src i apart from to =
    returns (record { size = refl; bytes = λ a. ground arith })
copy_words-Copied (suc n) mem dst src i apart from to =
    let (b0, e0) = get_elem?-within mem (src + i * 4) (omega arith) in
    let (b1, e1) = get_elem?-within mem (src + i * 4 + 1) (omega arith) in
    let (b2, e2) = get_elem?-within mem (src + i * 4 + 2) (omega arith) in
    let (b3, e3) = get_elem?-within mem (src + i * 4 + 3) (omega arith) in
    let m' =
      set (set (set (set mem (dst + i * 4) b0) (dst + i * 4 + 1) b1) (dst + i * 4 + 2) b2)
        (dst + i * 4 + 3) b3 in
    let word = word-Copied {mem = mem} (dst + i * 4) (src + i * 4) (omega arith) e0 e1 e2 e3 in
    let next : (i + 1) * 4 ≡ i * 4 + 4 = omega arith in
    let apart' : Apart (dst + (i + 1) * 4) (src + (i + 1) * 4) (n * 4) = ground (arith, apart) in
    let rest =
      copy_words-Copied n m' dst src (i + 1) apart' (omega (arith, word.size))
        (omega (arith, word.size)) in
    rw (e0, e1, e2, e3, poke32-ok mem (dst + i * 4) b0 b1 b2 b3 (omega arith))
      (Returns-mono rest λ mem' c. joined mem' word c)
  where
    joined :
        {m' : Memory} (mem' : Memory)
        → Copied mem (dst + i * 4) (src + i * 4) 4 m'
        → Copied m' (dst + (i + 1) * 4) (src + (i + 1) * 4) (n * 4) mem'
        → Copied mem (dst + i * 4) (src + i * 4) (suc n * 4) mem'
    joined mem' c d = record {
      size = d.size ∙ c.size;
      bytes = λ a. ground (
        arith,
        apart,
        d.bytes a,
        c.bytes a,
        c.bytes (src + (i + 1) * 4 + (a - (dst + (i + 1) * 4))),
      );
    }

-- `memcpy` of blocks that do not overlap never faults and copies every byte, whatever their number.
pub memcpy-Copied :
    (mem : Memory) (dest source size : ℕ)
    → (source + size ≤ dest) ⊎ (dest + size ≤ source)
    → source + size ≤ length mem
    → dest + size ≤ length mem
    → Returns (Copied mem dest source size) (memcpy mem dest source size)
unfolding memcpy
memcpy-Copied mem dest source size apart from to =
    let words : ℕ = size / 4 in
    let apart' : Apart (dest + 0 * 4) (source + 0 * 4) (words * 4) = ground (arith, apart) in
    Returns-bind (copy_words-Copied words mem dest source 0 apart' (omega arith) (omega arith)) rest
  where
    joined :
        (m1 m2 : Memory)
        → Copied mem dest source (size / 4 * 4) m1
        → Copied m1 (dest + size / 4 * 4 + 0) (source + size / 4 * 4 + 0) (size % 4) m2
        → Copied mem dest source size m2
    joined m1 m2 c d = record {
      size = d.size ∙ c.size;
      bytes = λ a. ground (
        arith,
        apart,
        d.bytes a,
        c.bytes a,
        c.bytes (source + size / 4 * 4 + 0 + (a - (dest + size / 4 * 4 + 0))),
      );
    }

    rest :
        (m1 : Memory)
        → Copied mem (dest + 0 * 4) (source + 0 * 4) (size / 4 * 4) m1
        → Returns
            (Copied mem dest source size)
            (copy_up m1 (dest + size / 4 * 4) (source + size / 4 * 4) 0 (size % 4))
    rest m1 c =
        let c' : Copied mem dest source (size / 4 * 4) m1 = record {
          size = c.size;
          bytes = λ a. ground (arith, c.bytes a);
        } in
        let apart' : (dest + size / 4 * 4 < source + size / 4 * 4)
            ⊎ (source + size / 4 * 4 + 0 + size % 4 ≤ dest + size / 4 * 4) =
          ground (arith, apart) in
        Returns-mono
          (copy_up-Copied (size % 4) m1 (dest + size / 4 * 4) (source + size / 4 * 4) 0 apart'
            (omega (arith, c.size)) (omega (arith, c.size)))
          λ m2 d. joined m1 m2 c' d
