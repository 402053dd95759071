-- ===== src/Ext2/Alloc.antt =====
-- kernel/fs/ext2/ext2.c: the search for a free bit of the bitmaps of blocks and inodes.
pub mod Repeats
use yanix.Common.{
  ℕ, zero, suc, ◌+◌, ◌-◌, ◌*◌, ◌/◌, ◌%◌, ◌^◌, Bool, true, false, not, Option, none, some, List, [],
  ◌∷◌, ◌==◌, ltb, leb, if◌then◌else◌, length, get_elem?, slice, overwrite, ◌>>=◌,
}
use yanix.Libk.Math.{roundup}
use yanix.Ext2.{BlockGroup, Filesystem, Disk, u32, disk_read, disk_write, u32_bytes}
use yanix.Ext2.Transfer.{word}

-- The first clear bit of a word, of `n` bits from bit `j` on.
unfoldable pub first_clear : (w j n : ℕ) → Option ℕ
first_clear w j zero = none
first_clear w j (suc n) = if (w / 2 ^ j % 2) == 0 then some j else first_clear w (j + 1) n

-- The first word of a bitmap, of `n` from word `i` on, that has a clear bit, and the bit.
unfoldable pub search_bitmap : (bitmap : List ℕ) (i n : ℕ) → Option (Option (ℕ × ℕ))
search_bitmap bitmap i zero = some none
search_bitmap bitmap i (suc n) = do
  w ← word bitmap i
  let rest = search_bitmap bitmap (i + 1) n
  if w == 2 ^ 32 - 1
      then rest
      else elim (first_clear w 0 32) [ some j ↦ some (some (i, j)) | none ↦ rest ]

-- A clear bit: its group, its number in the bitmap, and the bitmap with the bit set.
pub record Found : Type 0 where
  pub group : ℕ
  pub number : ℕ
  pub bitmap : List ℕ

-- `bitmap[i] | (1 << j)`, where the bit is clear.
unfoldable pub set_bit : (bitmap : List ℕ) (i j : ℕ) → Option (List ℕ)
set_bit bitmap i j = do w ← word bitmap i; some (overwrite bitmap (4 * i) (u32_bytes (w + 2 ^ j)))

-- A clear bit of a group ends the loop, and else the groups behind it follow.
unfoldable pub choose :
    Option (ℕ × ℕ) → (bitmap : List ℕ) (bgd_i : ℕ) → Option (Option Found) → Option (Option Found)
choose none bitmap bgd_i rest = rest
choose (some (i, j)) bitmap bgd_i rest = do
  bitmap' ← set_bit bitmap i j
  some (some (record { group = bgd_i; number = i * 32 + j; bitmap = bitmap' }))

-- The loop over `n` groups from group `bgd_i` on, whose bitmaps are read from `base` on.
unfoldable pub search_groups :
    (location : BlockGroup → ℕ) (base : ℕ)
    → Filesystem
    → Disk
    → (bgd_i n : ℕ) → Option (Option Found)
search_groups location base fs disk bgd_i zero = some none
search_groups location base fs disk bgd_i (suc n) = do
  bgd ← get_elem? fs.blockgroup_list bgd_i
  bitmap ← disk_read (u32 (u32 (location bgd * fs.block_size) + base)) fs.block_size disk
  let rest = search_groups location base fs disk (bgd_i + 1) n
  found ← search_bitmap bitmap 0 (fs.block_size / 4)
  choose found bitmap bgd_i rest

-- The bitmap is written back, without the start of the partition, before the jump out of the loops. The
-- number does not count the bits of the groups before; it is 0 where no bit is clear.
unfoldable pub settle :
    (location : BlockGroup → ℕ) → Filesystem → Option Found → Disk → Option (ℕ × Disk)
settle location fs none disk = some (0, disk)
settle location fs (some f) disk = do
  bgd ← get_elem? fs.blockgroup_list f.group
  disk' ← disk_write (u32 (location bgd * fs.block_size)) (slice f.bitmap 0 fs.block_size) disk
  some (f.number, disk')

unfoldable pub alloc_bit :
    (location : BlockGroup → ℕ) (base : ℕ) → Filesystem → Disk → Option (ℕ × Disk)
alloc_bit location base fs disk = do
  bgd_amount ← roundup fs.superblock.total_blocks fs.superblock.blocks_in_blockgroup
  found ← search_groups location base fs disk 0 bgd_amount
  settle location fs found disk

-- The bitmaps of blocks are read without the start of the partition.
unfoldable pub alloc_block : Filesystem → Disk → Option (ℕ × Disk)
alloc_block fs disk = alloc_bit (λ bgd. bgd.block_bitmap) 0 fs disk

unfoldable pub alloc_inode : Filesystem → Disk → Option (ℕ × Disk)
alloc_inode fs disk = alloc_bit (λ bgd. bgd.inode_bitmap) fs.partstart fs disk
