-- ===== src/Libk/Memory/Copy.antt =====
-- `memmove` copies, wherever the blocks lie.
use yanix.Common.{
  ℕ, zero, suc, ◌+◌, ◌-◌, ◌≤◌, ◌<◌, ◌≡◌, refl, ◌∙◌, inl, ◌⊎◌, Bool, ◌&&◌, some, arith, ltb, leb,
  if◌then◌else◌, length, length-set, get_elem?, get_elem?-set, get_elem?-within, lt→ltb, le→ltb,
  set, Returns, returns, Returns-mono,
}
use native.Mathlib.Decide.{dec_lt}
use yanix.Libk.Memory.{Memory, poke, copy_up, copy_down, memmove}

-- Whether address `a` lies in the `n` bytes from `p` on.
abbrev pub inside : (p n a : ℕ) → Bool
inside p n a = leb p a && ltb a (p + n)

-- The `n` bytes from `src` on of `mem` are at `dst`, and the rest is as it was.
pub record Copied (mem : Memory) (dst src n : ℕ) (mem' : Memory) : Type 0 where
  pub size : length mem' ≡ length mem
  pub bytes :
      (a : ℕ)
      → get_elem? mem' a
        ≡ (if inside dst n a then get_elem? mem (src + (a - dst)) else get_elem? mem a)

pub poke-ok : (mem : Memory) (p b : ℕ) → p < length mem → poke mem p b ≡ some (set mem p b)
unfolding poke
poke-ok mem p b lt = rw (lt→ltb p (length mem) lt)

-- A write that no byte read later sees, upwards.
pub copy_up-Copied :
    (n : ℕ) (mem : Memory) (dst src i : ℕ)
    → (dst < src) ⊎ (src + i + n ≤ dst)
    → src + i + n ≤ length mem
    → dst + i + n ≤ length mem
    → Returns (Copied mem (dst + i) (src + i) n) (copy_up mem dst src i n)
unfolding copy_up
copy_up-Copied zero mem dst src i apart from to =
    returns (record { size = refl; bytes = λ a. ground arith })
copy_up-Copied (suc n) mem dst src i apart from to =
    let (b, at) = get_elem?-within mem (src + i) (omega arith) in
    let len = length-set mem (dst + i) b in
    let apart' : (dst < src) ⊎ (src + (i + 1) + n ≤ dst) = ground (arith, apart) in
    let rest =
      copy_up-Copied n (set mem (dst + i) b) dst src (i + 1) apart' (omega arith) (omega arith) in
    rw (at, poke-ok mem (dst + i) b (omega arith))
      (Returns-mono rest λ mem' c. record {
        size = c.size ∙ len;
        bytes = λ a. ground (
          arith,
          apart,
          c.bytes a,
          get_elem?-set mem (dst + i) a b,
          get_elem?-set mem (dst + i) (src + (i + 1) + (a - (dst + (i + 1)))) b,
        );
      })

copy_down-Copied :
    (n : ℕ) (mem : Memory) (dst src : ℕ)
    → src ≤ dst
    → src + n ≤ length mem
    → dst + n ≤ length mem
    → Returns (Copied mem dst src n) (copy_down mem dst src n)
unfolding copy_down
copy_down-Copied zero mem dst src le from to =
    returns (record { size = refl; bytes = λ a. ground arith })
copy_down-Copied (suc n) mem dst src le from to =
    let (b, at) = get_elem?-within mem (src + n) (omega arith) in
    let len = length-set mem (dst + n) b in
    let rest = copy_down-Copied n (set mem (dst + n) b) dst src le (omega arith) (omega arith) in
    rw (at, poke-ok mem (dst + n) b (omega arith))
      (Returns-mono rest λ mem' c. record {
        size = c.size ∙ len;
        bytes = λ a. ground (
          arith,
          c.bytes a,
          get_elem?-set mem (dst + n) a b,
          get_elem?-set mem (dst + n) (src + (a - dst)) b,
        );
      })

-- `memmove` within memory never faults: the bytes that were at the source are at the destination,
-- overlapping or not, and every other byte is as it was.
pub memmove-Copied :
    (mem : Memory) (dst src size : ℕ)
    → src + size ≤ length mem
    → dst + size ≤ length mem
    → Returns (Copied mem dst src size) (memmove mem dst src size)
unfolding memmove
memmove-Copied mem dst src size from to = elim (dec_lt dst src) [
  | yes below ↦
      (let run = copy_up-Copied size mem dst src 0 (inl below) (omega arith) (omega arith) in
        rw (lt→ltb dst src below) (
          Returns-mono run
            λ mem' c. record { size = c.size; bytes = λ a. ground (arith, c.bytes a) }))
  | no above ↦
      rw (le→ltb dst src (omega arith)) (copy_down-Copied size mem dst src (omega arith) from to)
]
