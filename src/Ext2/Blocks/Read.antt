-- ===== src/Ext2/Blocks/Read.antt =====
-- Reads of the blocks of a file.
use yanix.Common.{
  ℕ, zero, suc, ◌+◌, ◌-◌, ◌*◌, ◌/◌, ◌^◌, ◌≤◌, ◌<◌, ◌≡◌, ◌≢◌, refl, ap, ◌∙◌, some, List, [], ◌∷◌,
  ◌++◌, arith, length, get_elem?, get_elem?-within, ne→==, slice, drop-cons, take, drop,
}
use yanix.Ext2.Update.{disk_read-slice}
use yanix.Ext2.{Filesystem, Disk, get_inode_ref}
use yanix.Ext2.Transfer.{direct_amount, read_inode_block, read_blocks, ext2_read_file}
use yanix.Ext2.Blocks.{Tree, leaves, data_offset-leaf}

pub slice-cons :
    (xs : List ℕ) (i n : ℕ) {q : ℕ}
    → get_elem? xs i ≡ some q
    → slice xs i (i + suc n) ≡ q ∷ slice xs (i + 1) (i + 1 + n)
slice-cons xs i n {q} at =
    let e : i + suc n - i ≡ suc n = omega arith in
    let f : n ≡ i + 1 + n - (i + 1) = omega arith in
    let g : suc i ≡ i + 1 = omega arith in
    ap (λ k. take k (drop i xs)) e
    ∙ ap (take (suc n)) (drop-cons xs i at)
    ∙ ap (λ k. q ∷ take k (drop (suc i) xs)) f
    ∙ ap (λ k. q ∷ take (i + 1 + n - (i + 1)) (drop k xs)) g

-- The block is on the disk, and is not the block 0.
pub record Readable (fs : Filesystem) (disk : Disk) (block : ℕ) : Type 0 where
  pub nonzero : block * fs.block_size ≢ 0
  pub on_disk : block * fs.block_size + fs.block_size + fs.partstart ≤ length disk
  pub small : block * fs.block_size + fs.partstart < 2 ^ 32

-- The bytes of a block, and of blocks in a row.
abbrev pub block_bytes : Filesystem → Disk → ℕ → List ℕ
block_bytes fs disk block =
    let start = block * fs.block_size + fs.partstart in slice disk start (start + fs.block_size)

abbrev pub bytes_of : Filesystem → Disk → List ℕ → List ℕ
bytes_of fs disk [] = []
bytes_of fs disk (block ∷ blocks) = block_bytes fs disk block ++ bytes_of fs disk blocks

module _ {fs : Filesystem} {disk : Disk} {inode : List ℕ} (t : Tree fs disk inode)
    (some_fit : 0 < fs.block_size / 4)
    (square : fs.block_size / 4 * (fs.block_size / 4) < 2 ^ 31) where
  read_inode_block-leaf :
      (b q : ℕ)
      → b < fs.block_size / 4 * (fs.block_size / 4) + direct_amount
      → get_elem? (leaves t) b ≡ some q
      → Readable fs disk q
      → read_inode_block inode b fs disk ≡ some (some (block_bytes fs disk q))
  unfolding read_inode_block
  read_inode_block-leaf b q below at r =
      rw
        (
          data_offset-leaf t some_fit b q square below at r.nonzero (omega (arith, r.small)),
          ne→== (q * fs.block_size) 0 r.nonzero,
          disk_read-slice (q * fs.block_size) fs.block_size fs disk r.on_disk r.small,
        )
        refl

  read_blocks-leaves :
      (n i : ℕ)
      → i + n ≤ length (leaves t)
      → i + n ≤ fs.block_size / 4 * (fs.block_size / 4) + direct_amount
      → ((b q : ℕ) → i ≤ b → b < i + n → get_elem? (leaves t) b ≡ some q → Readable fs disk q)
      → read_blocks inode i n fs disk ≡ some (n, bytes_of fs disk (slice (leaves t) i (i + n)))
  unfolding read_blocks
  read_blocks-leaves zero i le below r = let e : i + 0 - i ≡ 0 = omega arith in rw e refl
  read_blocks-leaves (suc n) i le below r =
      let (q, at) = get_elem?-within (leaves t) i (omega arith) in
      let ind =
        read_blocks-leaves n (i + 1) (omega arith) (omega arith)
          (λ b c lo hi x. r b c (omega arith) (omega arith) x) in
      let window : slice (leaves t) i (i + suc n) ≡ q ∷ slice (leaves t) (i + 1) (i + 1 + n) =
        slice-cons (leaves t) i n at in
      rw
        (
          read_inode_block-leaf i q (omega arith) at (r i q (omega arith) (omega arith) at),
          ind,
          window,
        )
        (let e : n + 1 ≡ suc n = omega arith in
          ap
            (λ c.
              some (
                c,
                block_bytes fs disk q ++ bytes_of fs disk (slice (leaves t) (i + 1) (i + 1 + n)),
              ))
            e)

pub read_file-leaves :
    (fs : Filesystem) (disk : Disk) (inode offset block_count : ℕ) (ref : List ℕ)
    → get_inode_ref inode fs disk ≡ some ref
    → (t : Tree fs disk ref) → 0 < fs.block_size / 4
    → fs.block_size / 4 * (fs.block_size / 4) < 2 ^ 31
    → offset + block_count ≤ length (leaves t)
    → offset + block_count ≤ fs.block_size / 4 * (fs.block_size / 4) + direct_amount
    → ((b q : ℕ)
        → offset ≤ b
        → b < offset + block_count
        → get_elem? (leaves t) b ≡ some q
        → Readable fs disk q)
    → ext2_read_file inode offset block_count fs disk
      ≡ some (block_count, bytes_of fs disk (slice (leaves t) offset (offset + block_count)))
unfolding ext2_read_file
read_file-leaves fs disk inode offset block_count ref at t some_fit square le below r =
    rw at (read_blocks-leaves t some_fit square block_count offset le below r)
