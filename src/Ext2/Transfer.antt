-- ===== src/Ext2/Transfer.antt =====
-- kernel/fs/ext2/ext2.c: the block pointers of an inode, and reads and writes of the blocks they name.
use yanix.Common.{
  ℕ, zero, suc, ◌+◌, ◌-◌, ◌*◌, ◌/◌, ◌^◌, true, not, Option, none, some, List, [], ◌++◌, ◌==◌, ltb,
  leb, if◌then◌else◌, length, slice, ◌>>=◌, ◌>>◌, check,
}
use yanix.Ext2.{
  Filesystem, Disk, u32, ext2_disk_read, ext2_disk_write, u32_at, div, mod_of, get_inode_ref,
}

-- `indirect_bp[i - k]`, which faults before the buffer.
abbrev pub word_before : List ℕ → (i k : ℕ) → Option ℕ
word_before words i k = if ltb i k then none else u32_at words (4 * (i - k))

abbrev pub word : List ℕ → (i : ℕ) → Option ℕ
word words i = u32_at words (4 * i)

-- The block that stands for a missing one, times the block size; 0 where none is guessed.
unfoldable pub fill_gap : (indirect_bp : List ℕ) (blk_to_rd block_size : ℕ) → Option ℕ
fill_gap indirect_bp blk_to_rd block_size = do
  next ← word indirect_bp (blk_to_rd + 1)
  last ← word_before indirect_bp blk_to_rd 1
  skips ←
      (if next == u32 (last + 2) then some true else (do
        next_but_one ← word indirect_bp (blk_to_rd + 2)
        some (next_but_one == u32 (last + 3))))
  if skips then some (u32 (u32 (last + 1) * block_size)) else (do
    last_but_one ← word_before indirect_bp blk_to_rd 2
    if next == u32 (last_but_one + 3)
        then some (u32 (u32 (last_but_one + 2) * block_size))
        else some 0)

unfoldable pub handle_indirect_bp : (indirect_bp_index blk_to_rd : ℕ) → Filesystem → Disk → Option ℕ
handle_indirect_bp indirect_bp_index blk_to_rd fs disk = do
  indirect_bp ← ext2_disk_read (u32 (indirect_bp_index * fs.block_size)) fs.block_size fs disk
  pointer ← word indirect_bp blk_to_rd
  if not (u32 (pointer * fs.block_size) == 0) then some (u32 (pointer * fs.block_size)) else (do
    next ← word indirect_bp (blk_to_rd + 1)
    more ←
        (if next == 0
          then (do next_but_one ← word indirect_bp (blk_to_rd + 2); some (not (next_but_one == 0)))
          else some true)
    if more then fill_gap indirect_bp blk_to_rd fs.block_size else some 0)

-- EXT2_DIRECT_BLOCK_POINTER_AMOUNT.
abbrev pub direct_amount : ℕ
direct_amount = 12

-- Where `ext2_inode_t` has its block pointers.
abbrev pub direct_block_pointer : ℕ
direct_block_pointer = 40

abbrev pub single_indirect_block_pointer : ℕ
single_indirect_block_pointer = 88

abbrev pub double_indirect_block_pointer : ℕ
double_indirect_block_pointer = 92

-- The block of a file that is behind the double indirect block. `p` pointers are in a block.
unfoldable pub double_indirect :
    (inode : List ℕ) (block_to_read p : ℕ) → Filesystem → Disk → Option ℕ
double_indirect inode block_to_read p fs disk = do
  double ← u32_at inode double_indirect_block_pointer
  if double == 0 then some 0 else (do
    d_indirect_bp ← ext2_disk_read (u32 (double * fs.block_size)) fs.block_size fs disk
    indirect_bp_index ← div (u32 (block_to_read + 2 ^ 32 - p - direct_amount)) p
    block_index ← mod_of (u32 (block_to_read + 2 ^ 32 - p - direct_amount)) p
    indirect_to_read ← word d_indirect_bp indirect_bp_index
    if indirect_to_read == 0
        then some 0
        else handle_indirect_bp indirect_to_read block_index fs disk)

-- Both branches for larger files print and return 0, where `pow` does not overflow.
unfoldable pub get_inode_data_offset :
    (inode : List ℕ) (block_to_read : ℕ) → Filesystem → Disk → Option ℕ
get_inode_data_offset inode block_to_read fs disk =
    let p = fs.block_size / 4 in
    if ltb block_to_read direct_amount
    then (do
      pointer ← u32_at inode (direct_block_pointer + 4 * block_to_read)
      some (u32 (pointer * fs.block_size)))
    else if ltb block_to_read (p + direct_amount)
    then (do
      single ← u32_at inode single_indirect_block_pointer
      handle_indirect_bp single (block_to_read - direct_amount) fs disk)
    else (do
      check (ltb (p * p) (2 ^ 31))
      if ltb block_to_read (p * p + direct_amount)
          then double_indirect inode block_to_read p fs disk
          else (do check (ltb (p * p * p) (2 ^ 31)); some 0))

-- The bytes of a block of the file; `some none` is the 0 that is returned, with EFBIG in `errno`.
unfoldable pub read_inode_block :
    (inode : List ℕ) (block_to_read : ℕ) → Filesystem → Disk → Option (Option (List ℕ))
read_inode_block inode block_to_read fs disk = do
  data_offset ← get_inode_data_offset inode block_to_read fs disk
  if data_offset == 0
      then some none
      else (do bytes ← ext2_disk_read data_offset fs.block_size fs disk; some (some bytes))

unfoldable pub write_inode_block :
    (inode : List ℕ) (block_to_read : ℕ) (buf : List ℕ) → Filesystem → Disk → Option (Option Disk)
write_inode_block inode block_to_read buf fs disk = do
  data_offset ← get_inode_data_offset inode block_to_read fs disk
  if data_offset == 0 then some none else (do
    check (leb fs.block_size (length buf))
    disk' ← ext2_disk_write data_offset (slice buf 0 fs.block_size) fs disk
    some (some disk'))

-- The loop over `n` blocks from `i` on: how many were read, and their bytes.
unfoldable pub read_blocks :
    (inode_ref : List ℕ) (i n : ℕ) → Filesystem → Disk → Option (ℕ × List ℕ)
read_blocks inode_ref i zero fs disk = some (0, [])
read_blocks inode_ref i (suc n) fs disk = do
  block ← read_inode_block inode_ref i fs disk
  elim block [
    | none ↦ some (0, [])
    | some bytes ↦ (do
      (ret, rest) ← read_blocks inode_ref (i + 1) n fs disk
      some (ret + 1, bytes ++ rest))
  ]

unfoldable pub ext2_read_file :
    (inode offset block_count : ℕ) → Filesystem → Disk → Option (ℕ × List ℕ)
ext2_read_file inode offset block_count fs disk = do
  inode_ref ← get_inode_ref inode fs disk
  read_blocks inode_ref offset block_count fs disk

unfoldable pub write_blocks :
    (inode_ref : List ℕ) (i n : ℕ) (buf : List ℕ) → Filesystem → Disk → Option (ℕ × Disk)
write_blocks inode_ref i zero buf fs disk = some (0, disk)
write_blocks inode_ref i (suc n) buf fs disk = do
  written ← write_inode_block inode_ref i buf fs disk
  elim written [
    | none ↦ some (0, disk)
    | some disk' ↦ (do
      (ret, disk'') ←
          write_blocks inode_ref (i + 1) n (slice buf fs.block_size (length buf)) fs disk'
      some (ret + 1, disk''))
  ]

unfoldable pub ext2_write_file :
    (inode offset : ℕ) (buf : List ℕ) (block_count : ℕ) → Filesystem → Disk → Option (ℕ × Disk)
ext2_write_file inode offset buf block_count fs disk = do
  inode_ref ← get_inode_ref inode fs disk
  write_blocks inode_ref offset block_count buf fs disk
