-- ===== src/Ext2.antt =====
-- kernel/fs/ext2/ext2.c: inodes and the blocks of files on a disk. A disk is the list of its bytes, and
-- a transfer (`disk_read`, `disk_write`) is whole, or faults past the end (`none`). A buffer in memory
-- is the list of its bytes, and a read past it faults. The kernel heap is taken to have the room.
pub mod Transfer
pub mod Inodes
pub mod Blocks
pub mod Sparse
pub mod Stored
pub mod Node
pub mod Files
pub mod Update
pub mod Alloc
pub mod Create
mod Sample
mod Whole
mod Tests
use yanix.Common.{
  ℕ, zero, suc, ◌+◌, ◌-◌, ◌*◌, ◌/◌, ◌%◌, ◌^◌, Bool, true, false, not, ◌&&◌, ◌||◌, Option, none,
  some, List, [], ◌∷◌, ◌++◌, ◌==◌, ltb, leb, if◌then◌else◌, length, get_elem?, set, slice,
  overwrite, ◌>>=◌, ◌>>◌, check,
}

-- What the calls read of an `ext2_superblock_t`.
pub record Superblock : Type 0 where
  pub total_blocks : ℕ
  pub blocks_in_blockgroup : ℕ
  pub inodes_in_blockgroup : ℕ
  pub major_version : ℕ
  pub inode_size : ℕ

-- What the calls read of an `ext2_block_group_descriptor_t`.
pub record BlockGroup : Type 0 where
  pub block_bitmap : ℕ
  pub inode_bitmap : ℕ
  pub start_inode_table : ℕ

-- What the calls read of a `filesystem_t`.
pub record Filesystem : Type 0 where
  pub superblock : Superblock
  pub blockgroup_list : List BlockGroup
  pub block_size : ℕ
  pub partstart : ℕ

abbrev pub Disk : Type 0
Disk = List ℕ

abbrev pub u32 : ℕ → ℕ
u32 n = n % 2 ^ 32

-- A transfer at an address of the disk.
abbrev pub disk_read : (offset size : ℕ) → Disk → Option (List ℕ)
disk_read offset size disk =
    if leb (offset + size) (length disk) then some (slice disk offset (offset + size)) else none

abbrev pub disk_write : (offset : ℕ) (bytes : List ℕ) → Disk → Option Disk
disk_write offset bytes disk =
    if leb (offset + length bytes) (length disk) then some (overwrite disk offset bytes) else none

unfoldable pub ext2_disk_read : (offset size : ℕ) → Filesystem → Disk → Option (List ℕ)
ext2_disk_read offset size fs disk = disk_read (u32 (offset + fs.partstart)) size disk

unfoldable pub ext2_disk_write : (offset : ℕ) (bytes : List ℕ) → Filesystem → Disk → Option Disk
ext2_disk_write offset bytes fs disk = disk_write (u32 (offset + fs.partstart)) bytes disk

-- The `uint32_t` and the `uint16_t` at an offset of a buffer.
unfoldable pub u32_at : List ℕ → ℕ → Option ℕ
u32_at bytes i = do
  a ← get_elem? bytes i
  b ← get_elem? bytes (i + 1)
  c ← get_elem? bytes (i + 2)
  d ← get_elem? bytes (i + 3)
  some (a + b * 2 ^ 8 + c * 2 ^ 16 + d * 2 ^ 24)

-- The four bytes of a `uint32_t`.
abbrev pub u32_bytes : ℕ → List ℕ
u32_bytes n = (n % 2 ^ 8) ∷ (n / 2 ^ 8 % 2 ^ 8) ∷ (n / 2 ^ 16 % 2 ^ 8) ∷ (n / 2 ^ 24 % 2 ^ 8) ∷ []

-- A division by zero faults.
abbrev pub div : ℕ → ℕ → Option ℕ
div a b = if b == 0 then none else some (a / b)

abbrev pub mod_of : ℕ → ℕ → Option ℕ
mod_of a b = if b == 0 then none else some (a % b)

-- EXT2_DEFAULT_INODE_SIZE.
abbrev pub default_inode_size : ℕ
default_inode_size = 128

abbrev pub get_inode_size : Filesystem → ℕ
get_inode_size fs =
    if ltb fs.superblock.major_version 1 then default_inode_size else fs.superblock.inode_size

-- `inode - 1` wraps around at 0.
unfoldable pub get_inode_offset : (inode : ℕ) → Filesystem → Option ℕ
get_inode_offset inode fs = do
  let inode_size = get_inode_size fs
  blockgroup ← div (u32 (inode + 2 ^ 32 - 1)) fs.superblock.inodes_in_blockgroup
  index ← mod_of (u32 (inode + 2 ^ 32 - 1)) fs.superblock.inodes_in_blockgroup
  containing_block ← div (u32 (index * inode_size)) fs.block_size
  bgd_ref ← get_elem? fs.blockgroup_list blockgroup
  in_block ← div fs.block_size inode_size
  slot ← mod_of index in_block
  some (
      u32 (
        u32 (u32 (bgd_ref.start_inode_table + containing_block) * fs.block_size)
        + slot * inode_size))

-- The bytes of an `ext2_inode_t`.
unfoldable pub get_inode_ref : (inode : ℕ) → Filesystem → Disk → Option (List ℕ)
get_inode_ref inode fs disk = do
  offset ← get_inode_offset inode fs
  ext2_disk_read offset (get_inode_size fs) fs disk

unfoldable pub write_inode : (inode_ref : List ℕ) (inode : ℕ) → Filesystem → Disk → Option Disk
write_inode inode_ref inode fs disk = do
  offset ← get_inode_offset inode fs
  check (leb (get_inode_size fs) (length inode_ref))
  ext2_disk_write offset (slice inode_ref 0 (get_inode_size fs)) fs disk

-- Where `ext2_inode_t` has its size.
abbrev pub size_field : ℕ
size_field = 4

-- `inode_ref->size = filelength`.
unfoldable pub ext2_update_node : (inode filelength : ℕ) → Filesystem → Disk → Option Disk
ext2_update_node inode filelength fs disk = do
  inode_ref ← get_inode_ref inode fs disk
  check (leb (size_field + 4) (length inode_ref))
  write_inode (overwrite inode_ref size_field (u32_bytes filelength)) inode fs disk

-- EXT2_INODE_TYPE_DIR and the other types of inodes, and VFS_DIRECTORY and the other types of nodes.
unfoldable pub inode_type_to_vfs_type : ℕ → ℕ
inode_type_to_vfs_type type =
    if type == 0x4000
    then 2
    else if type == 0x8000
    then 1
    else if type == 0x2000
    then 3
    else if type == 0x6000
    then 4
    else if type == 0x1000
    then 5
    else if type == 0xa000
    then 6
    else if type == 0xc000
    then 9
    else 0

unfoldable pub vfs_type_to_inode_type : ℕ → ℕ
vfs_type_to_inode_type type =
    if type == 2
    then 0x4000
    else if type == 3
    then 0x2000
    else if type == 4
    then 0x6000
    else if type == 5
    then 0x1000
    else if type == 9
    then 0xc000
    else if type == 6
    then 0xa000
    else 0x8000

-- What `ext2_vfs_entry` fills in of a node.
pub record Entry : Type 0 where
  pub type : ℕ
  pub permissions : ℕ
  pub offset : ℕ
  pub filelength : ℕ

-- The inode 0 is none.
unfoldable pub ext2_vfs_entry : (inode : ℕ) → Filesystem → Disk → Option (Option Entry)
ext2_vfs_entry inode fs disk = if inode == 0 then some none else (do
  inode_ref ← get_inode_ref inode fs disk
  lo ← get_elem? inode_ref 0
  hi ← get_elem? inode_ref 1
  size ← u32_at inode_ref size_field
  let type_permissions = lo + hi * 2 ^ 8
  some (
      some (record {
        type = inode_type_to_vfs_type (type_permissions / 2 ^ 12 * 2 ^ 12);
        permissions = type_permissions % 2 ^ 12;
        offset = inode;
        filelength = size;
      })))
