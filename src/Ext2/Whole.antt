-- ===== src/Ext2/Whole.antt =====
-- A small disk with one file that has all of its blocks, for runs of `fs_read` and `fs_write`.
use yanix.Common.{
  ℕ, zero, suc, ◌+◌, ◌*◌, ◌≤◌, ◌<◌, ◌≡◌, refl, sym, ◌∙◌, inl, inr, some, List, [], ◌∷◌, ◌++◌, arith,
  get_elem?, replicate, some-injective, none_ne_some, lt-get_elem?, get_elem?-replicate,
}
use yanix.Ext2.{Filesystem, Disk, get_inode_ref, get_inode_offset, ext2_disk_read, u32_at}
use yanix.Ext2.Transfer.{single_indirect_block_pointer, double_indirect_block_pointer}
use yanix.Ext2.Sample.{encode, word-encode, word-encode_front, prefixed}
use yanix.Ext2.Blocks.{Holds, Tree, leaves}
use yanix.Ext2.Blocks.Kept.{Unwritten, Among}
use yanix.Ext2.Stored.{FileOf}

abbrev counting : ℕ → ℕ → List ℕ
counting first zero = []
counting first (suc n) = first ∷ counting (suc first) n

counting_lem : (first n i q : ℕ) → get_elem? (counting first n) i ≡ some q → q ≡ first + i
counting_lem first zero i q e = absurd (none_ne_some e)
counting_lem first (suc n) zero q e = omega (arith, some-injective e)
counting_lem first (suc n) (suc i) q e = omega (arith, counting_lem (suc first) n i q e)

-- Blocks and inodes of 96 bytes, and one group of one inode, in block 1.
abbrev pub whole_fs : Filesystem
whole_fs = record {
  superblock = record {
    total_blocks = 40;
    blocks_in_blockgroup = 40;
    inodes_in_blockgroup = 1;
    major_version = 1;
    inode_size = 96;
  };
  blockgroup_list = record { block_bitmap = 0; inode_bitmap = 0; start_inode_table = 1 } ∷ [];
  block_size = 96;
  partstart = 0;
}

-- The blocks of the file.
abbrev pub whole_blocks : List ℕ
whole_blocks = counting 4 36

abbrev whole_inode : List ℕ
whole_inode = replicate 40 0 ++ (encode (counting 4 12) ++ encode (2 ∷ 3 ∷ []))

-- Blocks: the superblock, the inode, the single and the double indirect block, and data.
abbrev pub whole_disk : Disk
whole_disk =
    replicate 96 0
    ++ whole_inode
    ++ encode (counting 16 24)
    ++ encode (replicate 24 0)
    ++ replicate 3456 7

whole-ref : get_inode_ref 1 whole_fs whole_disk ≡ some whole_inode
unfolding get_inode_ref get_inode_offset ext2_disk_read
whole-ref = refl

single-Holds : Holds whole_fs whole_disk 2 (counting 16 24)
unfolding ext2_disk_read
single-Holds = record {
  bytes = encode (counting 16 24);
  read = refl;
  count = omega arith;
  words = λ i q e. word-encode (counting 16 24) i q (omega arith) e;
}

double-Holds : Holds whole_fs whole_disk 3 (replicate 24 0)
unfolding ext2_disk_read
double-Holds = record {
  bytes = encode (replicate 24 0);
  read = refl;
  count = omega arith;
  words = λ i q e. word-encode (replicate 24 0) i q (omega arith) e;
}

at-single : u32_at whole_inode single_indirect_block_pointer ≡ some 2
unfolding u32_at
at-single = refl

at-double : u32_at whole_inode double_indirect_block_pointer ≡ some 3
unfolding u32_at
at-double = refl

abbrev whole_tree : Tree whole_fs whole_disk whole_inode
whole_tree = record {
  direct = counting 4 12;
  twelve = omega arith;
  at_direct = λ i q e.
      prefixed 40 (encode (counting 4 12) ++ encode (2 ∷ 3 ∷ [])) (4 * i)
      ∙ word-encode_front (counting 4 12) (encode (2 ∷ 3 ∷ [])) i q (omega arith) e;
  single = 2;
  singles = counting 16 24;
  double = 3;
  seconds = replicate 24 0;
  doubles = [];
  indirect = inr (refl, at-single, single-Holds, inl refl);
}

abbrev Leaf : ℕ → Type 0
Leaf = Among (leaves whole_tree) 0 36

Leaf-High : (q : ℕ) → Leaf q → (4 ≤ q) × (q ≤ 39)
Leaf-High q (b, lo, hi, at) =
    let e = counting_lem 4 36 b q at in (omega (arith, e), omega (arith, e, hi))

low-Unwritten : (block : ℕ) → block < 4 → Unwritten whole_fs Leaf block
low-Unwritten block lt =
    (omega (arith, lt), λ q w e. let (lo, hi) = Leaf-High q w in omega (arith, lo, lt, e))

whole-place : get_inode_offset 1 whole_fs ≡ some 96
unfolding get_inode_offset
whole-place = refl

pub whole-FileOf : FileOf whole_fs 1 whole_blocks whole_disk
whole-FileOf = (
  record {
    ref = whole_inode;
    at = whole-ref;
    tree = whole_tree;
    some_fit = omega arith;
    square = omega arith;
    in_reach = omega arith;
    writable = record {
      readable = λ q w.
          (let (lo, hi) = Leaf-High q w in
            record {
              nonzero = λ e. omega (arith, e, lo);
              on_disk = omega (arith, hi);
              small = omega (arith, hi);
            });
      distinct = λ b c q lo lt hi at at'.
          omega (arith, lt, counting_lem 4 36 b q at, counting_lem 4 36 c q at');
      single_apart = low-Unwritten 2 (omega arith);
      double_apart = low-Unwritten 3 (omega arith);
      seconds_apart = λ k b at.
          (let zero_block : b ≡ 0 =
              some-injective
                (sym at ∙ get_elem?-replicate 24 k 0 (lt-get_elem? (replicate 24 0) k at)) in
            low-Unwritten b (omega (arith, zero_block)));
    };
    place = 96;
    at_place = whole-place;
    small = omega arith;
    wide = omega arith;
    apart = λ q w. inl (let (lo, hi) = Leaf-High q w in omega (arith, lo));
    single_clear = inl (omega arith);
    double_clear = inl (omega arith);
    seconds_clear = λ k b at.
        (let zero_block : b ≡ 0 =
            some-injective
              (sym at ∙ get_elem?-replicate 24 k 0 (lt-get_elem? (replicate 24 0) k at)) in
          inr (omega (arith, zero_block)));
  },
  refl,
)
