-- ===== src/Ext2/Stored.antt =====
-- A file whose blocks are all there: what the block functions and `ext2_update_node` do with it.
use yanix.Common.{
  get_elem?, ℕ, Option, ◌+◌, ◌*◌, ◌/◌, ◌^◌, ◌≤◌, ◌<◌, ◌≡◌, refl, sym, ap, ◌∙◌, some, none, List, [],
  arith, length, slice, overwrite, lt-get_elem?,
}
use native.Mathlib.Nat.{le_of_mul-le-mul_right}
use yanix.Ext2.{Filesystem, Disk, get_inode_size, get_inode_offset, get_inode_ref}
use yanix.Ext2.Transfer.{direct_amount, ext2_read_file, ext2_write_file}
use yanix.Ext2.Update.{slice_all}
use yanix.Ext2.Blocks.{Tree, leaves}
use yanix.Ext2.Blocks.Read.{bytes_of, read_file-leaves}
use yanix.Ext2.Blocks.Kept.{Apart, Kept, Among, Writable, Writable-within, tree_kept, Readable-Kept}
use yanix.Ext2.Blocks.Write.{write_file-leaves}
use yanix.Ext2.Blocks.Bytes.{
  AllReadable, Distinct, length-bytes_of, slice-bytes_of, bytes_of-overwrite,
}

-- The block functions of the file system, as `fs_read` and `fs_write` call them. A fault is a transfer
-- of nothing.
abbrev transferred : Option (ℕ × List ℕ) → ℕ × List ℕ
transferred none = (0, [])
transferred (some transfer) = transfer

abbrev pub block_read : (fs : Filesystem) (inode block count : ℕ) → Disk → ℕ × List ℕ
block_read fs inode block count disk = transferred (ext2_read_file inode block count fs disk)

abbrev written : Disk → Option (ℕ × Disk) → ℕ × Disk
written disk none = (0, disk)
written disk (some transfer) = transfer

abbrev pub block_write :
    (fs : Filesystem) (inode block count : ℕ) (bytes : List ℕ) → Disk → ℕ × Disk
block_write fs inode block count bytes disk =
    written disk (ext2_write_file inode block bytes count fs disk)

-- The inode is on the disk with its pointers, and its blocks can all be written.
pub record Stored (fs : Filesystem) (inode : ℕ) (disk : Disk) : Type 0 where
  pub ref : List ℕ
  pub at : get_inode_ref inode fs disk ≡ some ref
  pub tree : Tree fs disk ref
  pub some_fit : 0 < fs.block_size / 4
  pub square : fs.block_size / 4 * (fs.block_size / 4) < 2 ^ 31
  pub in_reach : length (leaves tree) ≤ fs.block_size / 4 * (fs.block_size / 4) + direct_amount
  pub writable : Writable fs disk tree 0 (length (leaves tree))
  pub place : ℕ
  pub at_place : get_inode_offset inode fs ≡ some place
  pub small : place + fs.partstart < 2 ^ 32
  pub wide : 8 ≤ get_inode_size fs
  pub apart :
      (q : ℕ)
      → Among (leaves tree) 0 (length (leaves tree)) q
      → Apart fs place (get_inode_size fs) q
  pub single_clear : Apart fs place (get_inode_size fs) tree.single
  pub double_clear : Apart fs place (get_inode_size fs) tree.double
  pub seconds_clear :
      (k b : ℕ) → get_elem? tree.seconds k ≡ some b → Apart fs place (get_inode_size fs) b

-- The blocks of the file are these.
abbrev pub FileOf : Filesystem → ℕ → List ℕ → Disk → Type 0
FileOf fs inode blocks disk = (s : Stored fs inode disk) × (leaves s.tree ≡ blocks)

module _ {fs : Filesystem} {inode : ℕ} {disk : Disk} (s : Stored fs inode disk) where
  pub leaves-AllReadable : AllReadable fs disk (leaves s.tree)
  leaves-AllReadable i q at =
      s.writable.readable q (i, omega arith, lt-get_elem? (leaves s.tree) i at, at)

  pub leaves-Distinct : Distinct (leaves s.tree)
  leaves-Distinct i j q lt at at' =
      s.writable.distinct i j q (omega arith) lt (lt-get_elem? (leaves s.tree) j at') at at'

  in_blocks :
      (n : ℕ)
      → n * fs.block_size ≤ length (bytes_of fs disk (leaves s.tree))
      → n ≤ length (leaves s.tree)
  in_blocks n le =
      le_of_mul-le-mul_right {m = n} {n = length (leaves s.tree)} {k = fs.block_size}
        (omega (arith, le, length-bytes_of fs disk (leaves s.tree) leaves-AllReadable))
        (omega (arith, s.some_fit))

  pub read-leaves :
      (b k : ℕ)
      → (b + k) * fs.block_size ≤ length (bytes_of fs disk (leaves s.tree))
      → block_read fs inode b k disk ≡ (
        k,
        slice (bytes_of fs disk (leaves s.tree)) (b * fs.block_size) ((b + k) * fs.block_size),
      )
  read-leaves b k le =
      let fit = in_blocks (b + k) le in
      let bytes = slice-bytes_of fs disk (leaves s.tree) b k leaves-AllReadable fit in
      let run =
        read_file-leaves fs disk inode b k s.ref s.at s.tree s.some_fit s.square fit
          (omega (arith, fit, s.in_reach)) (λ c q lo hi at. leaves-AllReadable c q at) in
      ap transferred run ∙ ap (λ t. (k, t)) (sym bytes)

  -- The file has its blocks when some of them are written.
  FileOf-Kept :
      (b k : ℕ) (disk' : Disk)
      → b + k ≤ length (leaves s.tree)
      → Kept fs disk disk' (Among (leaves s.tree) b (b + k))
      → get_inode_ref inode fs disk' ≡ some s.ref
      → FileOf fs inode (leaves s.tree) disk'
  FileOf-Kept b k disk' fit kept at' =
      let n = length (leaves s.tree) in
      let W = Among (leaves s.tree) b (b + k) in
      let w = Writable-within s.tree 0 n b (b + k) (omega arith) fit s.writable in
      (
        record {
          ref = s.ref;
          at = at';
          tree = tree_kept s.tree W kept w.single_apart w.double_apart w.seconds_apart;
          some_fit = s.some_fit;
          square = s.square;
          in_reach = s.in_reach;
          writable = record {
            readable = λ q m. Readable-Kept W q kept (s.writable.readable q m);
            distinct = s.writable.distinct;
            single_apart = s.writable.single_apart;
            double_apart = s.writable.double_apart;
            seconds_apart = s.writable.seconds_apart;
          };
          place = s.place;
          at_place = s.at_place;
          small = s.small;
          wide = s.wide;
          apart = s.apart;
          single_clear = s.single_clear;
          double_clear = s.double_clear;
          seconds_clear = s.seconds_clear;
        },
        refl,
      )

  -- What is left on the disk by a write, with the tree of pointers where it was.
  pub write-leaves :
      (b k : ℕ) (bytes : List ℕ)
      → (b + k) * fs.block_size ≤ length (bytes_of fs disk (leaves s.tree))
      → length bytes ≡ k * fs.block_size
      → (disk' : Disk) × (block_write fs inode b k bytes disk ≡ (k, disk'))
        × (bytes_of fs disk' (leaves s.tree)
            ≡ overwrite (bytes_of fs disk (leaves s.tree)) (b * fs.block_size) bytes)
        × FileOf fs inode (leaves s.tree) disk'
  write-leaves b k bytes le long =
      let n = length (leaves s.tree) in
      let fit = in_blocks (b + k) le in
      let w = Writable-within s.tree 0 n b (b + k) (omega arith) fit s.writable in
      let (disk', run, at', kept, have) =
        write_file-leaves fs disk inode b k s.place bytes s.ref s.at s.tree s.some_fit s.square fit
          (omega (arith, fit, s.in_reach)) w (omega (arith, long)) s.at_place s.small
          (λ q (c, lo, hi, at). s.apart q (c, omega arith, omega (arith, hi, fit), at)) in
      (
        disk',
        ap (written disk) run,
        bytes_of-overwrite fs disk disk' (leaves s.tree) bytes b k leaves-AllReadable
            leaves-Distinct fit kept long (have ∙ slice_all bytes (k * fs.block_size) long),
        FileOf-Kept b k disk' fit kept at',
      )
