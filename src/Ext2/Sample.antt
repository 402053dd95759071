-- ===== src/Ext2/Sample.antt =====
-- A small disk, with an inode and the tree of its pointers, for runs of kernel/fs/ext2/ext2.c.
use yanix.Common.{
  ℕ, zero, suc, ◌+◌, ◌*◌, ◌/◌, ◌%◌, ◌^◌, ◌<◌, ◌≡◌, refl, inl, inr, sym, ap, ◌∙◌, Option, none, some,
  List, [], ◌∷◌, ◌++◌, arith, get_elem?, replicate,
}
use yanix.Ext2.{
  BlockGroup, Filesystem, Disk, u32_at, u32_bytes, get_inode_ref, ext2_disk_read, get_inode_offset,
}
use yanix.Ext2.Transfer.{word}
use yanix.Ext2.Inodes.{Layout}
use yanix.Ext2.Blocks.{Holds, Tree}

abbrev pub encode : List ℕ → List ℕ
encode [] = []
encode (x ∷ xs) = u32_bytes x ++ encode xs

abbrev pub Words : List ℕ → Type 0
Words [] = Unit {0}
Words (x ∷ xs) = (x < 2 ^ 32) × Words xs

u32_at-shift :
    (a b c d : ℕ) (xs : List ℕ) (j : ℕ)
    → u32_at (a ∷ b ∷ c ∷ d ∷ xs) (suc (suc (suc (suc j)))) ≡ u32_at xs j
unfolding u32_at
u32_at-shift a b c d xs j =
    let one : suc (suc (suc (suc j))) + 1 ≡ suc (suc (suc (suc (j + 1)))) = omega arith in
    let two : suc (suc (suc (suc j))) + 2 ≡ suc (suc (suc (suc (j + 2)))) = omega arith in
    let three : suc (suc (suc (suc j))) + 3 ≡ suc (suc (suc (suc (j + 3)))) = omega arith in
    rw (one, two, three) refl

pub word-encode :
    (xs : List ℕ) (i q : ℕ) → Words xs → get_elem? xs i ≡ some q → word (encode xs) i ≡ some q
unfolding u32_at
word-encode [] i q h e = ground (arith, e)
word-encode (x ∷ xs) zero q (lt, h) e =
    let sum : x % 2 ^ 8
          + x / 2 ^ 8 % 2 ^ 8 * 2 ^ 8
          + x / 2 ^ 16 % 2 ^ 8 * 2 ^ 16
          + x / 2 ^ 24 % 2 ^ 8 * 2 ^ 24
        ≡ x =
      omega arith in
    ap some sum ∙ e
word-encode (x ∷ xs) (suc i) q (lt, h) e =
    let f : 4 * suc i ≡ suc (suc (suc (suc (4 * i)))) = omega arith in
    ap (u32_at (encode (x ∷ xs))) f
    ∙ u32_at-shift (x % 2 ^ 8) (x / 2 ^ 8 % 2 ^ 8) (x / 2 ^ 16 % 2 ^ 8) (x / 2 ^ 24 % 2 ^ 8)
        (encode xs) (4 * i)
    ∙ word-encode xs i q h e

-- Blocks and inodes of 128 bytes, one inode in each group's block, and one group, whose table is block 1.
abbrev pub fs : Filesystem
fs = record {
  superblock = record {
    total_blocks = 8;
    blocks_in_blockgroup = 8;
    inodes_in_blockgroup = 2;
    major_version = 0;
    inode_size = 0;
  };
  blockgroup_list = record { block_bitmap = 0; inode_bitmap = 0; start_inode_table = 1 } ∷ [];
  block_size = 128;
  partstart = 0;
}

abbrev directs : List ℕ
directs = replicate 12 6

abbrev singles : List ℕ
singles = 4 ∷ 0 ∷ 6 ∷ replicate 29 7

abbrev pub seconds : List ℕ
seconds = replicate 32 3

-- Blocks: the superblock, two inodes, the single and the double indirect block, and data.
abbrev pub disk : Disk
disk =
    replicate 128 0
    ++ (replicate 40 0 ++ (encode directs ++ (encode (3 ∷ 4 ∷ []) ++ replicate 32 0)))
    ++ replicate 128 0
    ++ encode singles
    ++ encode seconds
    ++ replicate 128 50
    ++ replicate 128 60
    ++ replicate 128 70

abbrev pub inode : List ℕ
inode = replicate 40 0 ++ (encode directs ++ (encode (3 ∷ 4 ∷ []) ++ replicate 32 0))

pub inode-ref : get_inode_ref 1 fs disk ≡ some inode
unfolding get_inode_ref get_inode_offset ext2_disk_read
inode-ref = refl

pub single-Holds : Holds fs disk 3 singles
unfolding ext2_disk_read
single-Holds = record {
  bytes = encode singles;
  read = refl;
  count = omega arith;
  words = λ i q e. word-encode singles i q (omega arith) e;
}

pub double-Holds : Holds fs disk 4 seconds
unfolding ext2_disk_read
double-Holds = record {
  bytes = encode seconds;
  read = refl;
  count = omega arith;
  words = λ i q e. word-encode seconds i q (omega arith) e;
}

pub prefixed :
    (n : ℕ) (rest : List ℕ) (i : ℕ) → u32_at (replicate n 0 ++ rest) (n + i) ≡ u32_at rest i
unfolding u32_at
prefixed zero rest i = let e : 0 + i ≡ i = omega arith in rw e refl
prefixed (suc n) rest i =
    let z : suc n + i ≡ suc (n + i) = omega arith in
    let one : suc (n + i) + 1 ≡ suc (n + i + 1) = omega arith in
    let two : suc (n + i) + 2 ≡ suc (n + i + 2) = omega arith in
    let three : suc (n + i) + 3 ≡ suc (n + i + 3) = omega arith in
    rw (z, one, two, three) (prefixed n rest i)

-- The words of a list in front of others.
pub word-encode_front :
    (xs rest : List ℕ) (i q : ℕ)
    → Words xs
    → get_elem? xs i ≡ some q
    → u32_at (encode xs ++ rest) (4 * i) ≡ some q
unfolding u32_at
word-encode_front [] rest i q h e = ground (arith, e)
word-encode_front (x ∷ xs) rest zero q (lt, h) e =
    let sum : x % 2 ^ 8
          + x / 2 ^ 8 % 2 ^ 8 * 2 ^ 8
          + x / 2 ^ 16 % 2 ^ 8 * 2 ^ 16
          + x / 2 ^ 24 % 2 ^ 8 * 2 ^ 24
        ≡ x =
      omega arith in
    ap some sum ∙ e
word-encode_front (x ∷ xs) rest (suc i) q (lt, h) e =
    let f : 4 * suc i ≡ suc (suc (suc (suc (4 * i)))) = omega arith in
    ap (u32_at (encode (x ∷ xs) ++ rest)) f
    ∙ u32_at-shift (x % 2 ^ 8) (x / 2 ^ 8 % 2 ^ 8) (x / 2 ^ 16 % 2 ^ 8) (x / 2 ^ 24 % 2 ^ 8)
        (encode xs ++ rest) (4 * i)
    ∙ word-encode_front xs rest i q h e

unfoldable pub tree : Tree fs disk inode
unfolding u32_at
tree = record {
  direct = directs;
  twelve = omega arith;
  at_direct = λ i q e.
      prefixed 40 (encode directs ++ (encode (3 ∷ 4 ∷ []) ++ replicate 32 0)) (4 * i)
      ∙ word-encode_front directs (encode (3 ∷ 4 ∷ []) ++ replicate 32 0) i q (omega arith) e;
  single = 3;
  singles = singles;
  double = 4;
  seconds = seconds;
  doubles = [];
  indirect = inr (refl, refl, single-Holds, inl refl);
}

fs-fits :
    (g : ℕ) (bg : BlockGroup) → get_elem? fs.blockgroup_list g ≡ some bg → bg.start_inode_table ≡ 1
fs-fits zero bg at = ap start (sym at)
  where
    start : Option BlockGroup → ℕ
    start none = 0
    start (some x) = x.start_inode_table
fs-fits (suc g) bg at = ground (arith, at)

one_group : (g : ℕ) (bg : BlockGroup) → get_elem? fs.blockgroup_list g ≡ some bg → g ≡ 0
one_group zero bg at = refl
one_group (suc g) bg at = ground (arith, at)

pub fs-Layout : Layout fs
fs-Layout = record {
  inode_pos = omega arith;
  per_block = 1;
  some_fit = omega arith;
  whole = refl;
  some_inodes = omega arith;
  fits = λ g bg at. omega (arith, fs-fits g bg at);
  apart = λ g h bg bh ne at at'. absurd (ne (one_group g bg at ∙ sym (one_group h bh at')));
}
