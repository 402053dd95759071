-- ===== src/Ext2/Tests.antt =====
-- Runs of kernel/fs/ext2/ext2.c on a small disk.
use yanix.Common.{
  ℕ, zero, suc, ◌≡◌, ◌≢◌, refl, sym, ap, inr, Option, none, some, List, [], ◌∷◌, ◌++◌, arith,
  get_elem?, replicate, overwrite,
}
use yanix.Ext2.{
  BlockGroup, Filesystem, Disk, u32_at, get_inode_ref, ext2_update_node, get_inode_offset,
  size_field,
}
use yanix.Ext2.Blocks.Kept.{Kept}
use yanix.Ext2.Inodes.{get_inode_offset-place}
use yanix.Ext2.Update.{Stands, update_node-size}
use yanix.Libk.Math.{roundup}
use yanix.Ext2.Alloc.{
  alloc_inode, alloc_bit, search_groups, search_bitmap, first_clear, set_bit, settle, choose,
}
use yanix.Ext2.Alloc.Repeats.{Shifted, alloc_inode-repeats}
use yanix.Ext2.Sample.{fs, disk, fs-Layout}

get_inode_offset-place_example : get_inode_offset 2 fs ≡ some 256
get_inode_offset-place_example =
    get_inode_offset-place fs (record { block_bitmap = 0; inode_bitmap = 0; start_inode_table = 1 })
      2 fs-Layout (omega arith) (omega arith) refl

inode-Stands : Stands fs disk 2
inode-Stands = record {
  pos = omega arith;
  small = omega arith;
  bg = record { block_bitmap = 0; inode_bitmap = 0; start_inode_table = 1 };
  at = refl;
  on_disk = omega arith;
}

update_node-size_example :
    (disk' : Disk) × (ref : List ℕ) × (ext2_update_node 2 5000 fs disk ≡ some disk')
    × (get_inode_ref 2 fs disk' ≡ some ref)
    × (u32_at ref size_field ≡ some 5000)
    × ((j : ℕ) → j ≢ 2 → Stands fs disk j → get_inode_ref j fs disk' ≡ get_inode_ref j fs disk)
update_node-size_example =
    update_node-size fs disk 2 5000 fs-Layout inode-Stands (omega arith) (omega arith)

abbrev written : List ℕ
written = replicate 128 8 ++ replicate 128 9

-- The file system starts at byte 256, and its bitmap of inodes is its block 1.
abbrev moved : Filesystem
moved = record fs {
  blockgroup_list = record { block_bitmap = 0; inode_bitmap = 1; start_inode_table = 2 } ∷ [];
  partstart = 256;
}

abbrev blank : Disk
blank = replicate 512 0

abbrev marked : Disk
marked = overwrite blank 128 (1 ∷ replicate 127 0)

moved-bitmap :
    (g : ℕ) (bg : BlockGroup) → get_elem? moved.blockgroup_list g ≡ some bg → bg.inode_bitmap ≡ 1
moved-bitmap zero bg at = ap bitmap (sym at)
  where
    bitmap : Option BlockGroup → ℕ
    bitmap none = 0
    bitmap (some x) = x.inode_bitmap
moved-bitmap (suc g) bg at = ground (arith, at)

moved-Shifted : Shifted moved
moved-Shifted g h bg bh at at' = inr (omega (arith, moved-bitmap g bg at, moved-bitmap h bh at'))

first_alloc : alloc_inode moved blank ≡ some (0, marked)
unfolding alloc_inode alloc_bit search_groups search_bitmap first_clear set_bit settle choose
    roundup u32_at
first_alloc = refl

alloc_inode-repeats_example : (disk'' : Disk) × (alloc_inode moved marked ≡ some (0, disk''))
alloc_inode-repeats_example = alloc_inode-repeats moved blank marked 0 moved-Shifted first_alloc
