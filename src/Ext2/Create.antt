-- ===== src/Ext2/Create.antt =====
-- kernel/fs/ext2/ext2.c: a new inode, with the blocks of its content.
use yanix.Common.{
  ℕ, zero, suc, ◌+◌, ◌*◌, ◌/◌, ◌%◌, ◌^◌, Option, some, List, [], ◌∷◌, ◌++◌, ◌==◌, leb,
  if◌then◌else◌, length, slice, replicate, ◌>>=◌, ◌>>◌, check,
}
use Prim.Native.Nat.{bit_or}
use yanix.Ext2.{Filesystem, Disk, u32, div, ext2_disk_write, u32_bytes, write_inode}
use yanix.Ext2.Alloc.{alloc_block, alloc_inode}

-- The two bytes of a `uint16_t`.
abbrev u16_bytes : ℕ → List ℕ
u16_bytes n = (n % 2 ^ 8) ∷ (n / 2 ^ 8 % 2 ^ 8) ∷ []

unfoldable pub write_block : (block : ℕ) (buf : List ℕ) → Filesystem → Disk → Option Disk
write_block block buf fs disk = do
  check (leb fs.block_size (length buf))
  ext2_disk_write (u32 (block * fs.block_size)) (slice buf 0 fs.block_size) fs disk

-- How many blocks the content takes.
unfoldable pub sectors : (size : ℕ) → Filesystem → Option ℕ
sectors size fs = do
  whole ← div size fs.block_size
  some (if size == 0 then 0 else if whole * fs.block_size == size then whole else whole + 1)

-- The loop over `n` blocks from block `i` of the content on. The inode does not get their numbers.
unfoldable pub write_content : (buf : List ℕ) (i n : ℕ) → Filesystem → Disk → Option Disk
write_content buf i zero fs disk = some disk
write_content buf i (suc n) fs disk = do
  (block, disk') ← alloc_block fs disk
  if block == 0 then some disk' else (do
    disk'' ← write_block block (slice buf (i * fs.block_size) (length buf)) fs disk'
    write_content buf (i + 1) n fs disk'')

-- The bytes of the new inode; the fields that are not set are 0.
unfoldable pub new_inode_ref : (type permissions uid gid size flags disk_sectors : ℕ) → List ℕ
new_inode_ref type permissions uid gid size flags disk_sectors =
    u16_bytes (bit_or type permissions)
    ++ u16_bytes uid
    ++ u32_bytes size
    ++ replicate 16 0
    ++ u16_bytes gid
    ++ replicate 2 0
    ++ u32_bytes disk_sectors
    ++ u32_bytes flags
    ++ replicate 92 0

-- The entry in the directory of the parent is a stub that returns 0.
unfoldable pub create_inode :
    (type permissions uid gid size flags : ℕ) (buf : List ℕ) → Filesystem → Disk → Option (ℕ × Disk)
create_inode type permissions uid gid size flags buf fs disk = do
  (new_inode, disk') ← alloc_inode fs disk
  disk_sectors ← sectors size fs
  disk'' ← write_content buf 0 disk_sectors fs disk'
  disk''' ←
      write_inode (new_inode_ref type permissions uid gid size flags disk_sectors) new_inode fs
        disk''
  some (new_inode, disk''')
