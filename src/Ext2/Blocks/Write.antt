-- ===== src/Ext2/Blocks/Write.antt =====
-- Writes of the blocks of a file: what is read afterwards.
use yanix.Common.{
  ℕ, zero, suc, ◌+◌, ◌-◌, ◌*◌, ◌/◌, ◌^◌, ◌≤◌, ◌<◌, ◌≡◌, refl, sym, ap, ◌∙◌, inl, inr, some, List,
  ◌∷◌, ◌++◌, arith, length, get_elem?, get_elem?-within, le→leb, ne→==, slice, take, drop,
  overwrite, length-overwrite, slice-overwrite_self, slice-overwrite_apart, length-take,
  length-drop, take_all,
}
use native.Mathlib.Nat.{add-mul}
use yanix.Ext2.Update.{disk_write-overwrite}
use yanix.Fs.Read.{take-add}
use yanix.Ext2.Blocks.{Tree, leaves, data_offset-leaf}
use yanix.Ext2.Blocks.Read.{Readable, block_bytes, bytes_of, slice-cons}
use yanix.Ext2.{Filesystem, Disk, get_inode_offset, get_inode_size, get_inode_ref}
use yanix.Ext2.Transfer.{write_inode_block, write_blocks, ext2_write_file, direct_amount}
use yanix.Ext2.Blocks.Kept.{
  Apart, blocks-Apart, Kept, disk_read-Kept, Among, Writable, tree_kept, Unwritten-less,
  Readable-Kept,
}

-- A block that is written.
module _ {fs : Filesystem} {disk : Disk} {inode : List ℕ} (t : Tree fs disk inode)
    (some_fit : 0 < fs.block_size / 4)
    (square : fs.block_size / 4 * (fs.block_size / 4) < 2 ^ 31) where
  write_inode_block-leaf :
      (b q : ℕ) (buf : List ℕ)
      → b < fs.block_size / 4 * (fs.block_size / 4) + direct_amount
      → get_elem? (leaves t) b ≡ some q
      → Readable fs disk q
      → fs.block_size ≤ length buf
      → (disk' : Disk) × (write_inode_block inode b buf fs disk ≡ some (some disk'))
        × Kept fs disk disk' (λ c. c ≡ q)
        × (block_bytes fs disk' q ≡ slice buf 0 fs.block_size)
  unfolding write_inode_block
  write_inode_block-leaf b q buf below at r full =
      let block = slice buf 0 fs.block_size in
      let start = q * fs.block_size + fs.partstart in
      let long : length block ≡ fs.block_size =
        omega (arith, length-take (fs.block_size - 0) buf, full) in
      (
        overwrite disk start block,
        rw
            (
              data_offset-leaf t some_fit b q square below at r.nonzero (omega (arith, r.small)),
              ne→== (q * fs.block_size) 0 r.nonzero,
              le→leb fs.block_size (length buf) full,
              disk_write-overwrite (q * fs.block_size) block fs disk
                  (omega (arith, long, r.on_disk)) r.small,
            )
            refl,
        record {
          long = length-overwrite disk start block;
          same = λ p size away.
              slice-overwrite_apart block disk start (p + fs.partstart) (p + fs.partstart + size)
                (elim (away q refl) [
                  | inl le ↦ inl (omega (arith, le))
                  | inr le ↦ inr (omega (arith, le, long))
                ])
                (omega arith);
        },
        ap (λ n. slice (overwrite disk start block) start (start + n)) (sym long)
            ∙ slice-overwrite_self block disk start (omega (arith, long, r.on_disk)),
      )

-- The rest of a buffer behind its first block.
buffer_split :
    (buf : List ℕ) (z n : ℕ)
    → slice buf 0 z ++ slice (slice buf z (length buf)) 0 (n * z) ≡ slice buf 0 (suc n * z)
buffer_split buf z n =
    let e : z - 0 ≡ z = omega arith in
    let f : n * z - 0 ≡ n * z = omega arith in
    let g : suc n * z - 0 ≡ z + n * z = omega (arith, add-mul n 1 z) in
    let rest : take (length buf - z) (drop z buf) ≡ drop z buf =
      take_all (drop z buf) (length buf - z) (omega (arith, length-drop z buf)) in
    rw (e, f, g, rest) (sym (take-add z (n * z) buf))

-- What was written of a block and then of the blocks behind it.
Kept-cons :
    (fs : Filesystem) (disk disk1 disk2 : Disk) (blocks : List ℕ) (i j q : ℕ)
    → get_elem? blocks i ≡ some q
    → i < j
    → Kept fs disk disk1 (λ c. c ≡ q)
    → Kept fs disk1 disk2 (Among blocks (i + 1) j)
    → Kept fs disk disk2 (Among blocks i j)
Kept-cons fs disk disk1 disk2 blocks i j q at lt k l = record {
  long = l.long ∙ k.long;
  same = λ p size away.
      l.same p size (λ c (b, lo, hi, at_b). away c (b, omega (arith, lo), hi, at_b))
      ∙ k.same p size (λ c e. away c (i, omega arith, lt, at ∙ ap some (sym e)));
}

module _ {fs : Filesystem} {disk disk' : Disk} {inode : List ℕ} (t : Tree fs disk inode) (i j q : ℕ)
    (at : get_elem? (leaves t) i ≡ some q) (lt : i < j) (w : Writable fs disk t i j)
    (k : Kept fs disk disk' (λ c. c ≡ q)) where
  first : (c : ℕ) → c ≡ q → Among (leaves t) i j c
  first c e = (i, omega arith, lt, at ∙ ap some (sym e))

  later : (c : ℕ) → Among (leaves t) (i + 1) j c → Among (leaves t) i j c
  later c (b, lo, hi, at_b) = (b, omega (arith, lo), hi, at_b)

  -- The tree when the first block is written.
  abbrev next_tree : Tree fs disk' inode
  next_tree =
      tree_kept t (λ c. c ≡ q) k
        (Unwritten-less fs (Among (leaves t) i j) (λ c. c ≡ q) t.single first w.single_apart)
        (Unwritten-less fs (Among (leaves t) i j) (λ c. c ≡ q) t.double first w.double_apart)
        (λ n b at_b.
          Unwritten-less fs (Among (leaves t) i j) (λ c. c ≡ q) b first (w.seconds_apart n b at_b))

  next-Writable : Writable fs disk' next_tree (i + 1) j
  next-Writable =
      let less =
        λ (b : ℕ). Unwritten-less fs (Among (leaves t) i j) (Among (leaves t) (i + 1) j) b later in
      record {
        readable = λ c m. Readable-Kept (λ d. d ≡ q) c k (w.readable c (later c m));
        distinct = λ b c d lo. w.distinct b c d (omega (arith, lo));
        single_apart = less t.single w.single_apart;
        double_apart = less t.double w.double_apart;
        seconds_apart = λ n b at_b. less b (w.seconds_apart n b at_b);
      }

write_blocks-cons :
    (inode : List ℕ) (i n : ℕ) (buf : List ℕ) (fs : Filesystem) (disk disk1 disk2 : Disk)
    → write_inode_block inode i buf fs disk ≡ some (some disk1)
    → write_blocks inode (i + 1) n (slice buf fs.block_size (length buf)) fs disk1 ≡ some (n, disk2)
    → write_blocks inode i (suc n) buf fs disk ≡ some (suc n, disk2)
unfolding write_blocks
write_blocks-cons inode i n buf fs disk disk1 disk2 wrote writes =
    let one_more : n + 1 ≡ suc n = omega arith in rw (wrote, writes, one_more) refl

slice-from :
    (xs : List ℕ) (i n j q : ℕ)
    → get_elem? xs i ≡ some q
    → i + suc n ≡ j
    → slice xs i j ≡ q ∷ slice xs (i + 1) j
slice-from xs i n j q at e =
    ap (slice xs i) (sym e)
    ∙ slice-cons xs i n at
    ∙ ap (λ k. q ∷ slice xs (i + 1) k) {x = i + 1 + n} {y = j} (omega (arith, e))

module _ {fs : Filesystem} {inode : List ℕ} (some_fit : 0 < fs.block_size / 4)
    (square : fs.block_size / 4 * (fs.block_size / 4) < 2 ^ 31) where
  write_blocks-leaves :
      (n i j : ℕ) (buf : List ℕ) {disk : Disk} (t : Tree fs disk inode)
      → i + n ≡ j
      → j ≤ length (leaves t)
      → j ≤ fs.block_size / 4 * (fs.block_size / 4) + direct_amount
      → Writable fs disk t i j
      → n * fs.block_size ≤ length buf
      → (disk' : Disk) × (write_blocks inode i n buf fs disk ≡ some (n, disk'))
        × Kept fs disk disk' (Among (leaves t) i j)
        × (bytes_of fs disk' (slice (leaves t) i j) ≡ slice buf 0 (n * fs.block_size))
  unfolding write_blocks
  write_blocks-leaves zero i j buf {disk} t e le below w full =
      let none_left : j - i ≡ 0 = omega (arith, e) in
      let no_bytes : 0 * fs.block_size - 0 ≡ 0 = omega arith in
      (
        disk,
        refl,
        record { long = refl; same = λ p size away. refl },
        rw (none_left, no_bytes) refl,
      )
  write_blocks-leaves (suc n) i j buf {disk} t e le below w full =
      let z = fs.block_size in
      let more = add-mul n 1 z in
      let (q, at) = get_elem?-within (leaves t) i (omega (arith, e, le)) in
      let lt : i < j = omega (arith, e) in
      let (disk1, wrote, kept1, has) =
        write_inode_block-leaf t some_fit square i q buf (omega (arith, lt, below)) at
          (w.readable q (i, omega arith, lt, at)) (omega (arith, more, full)) in
      let t1 = next_tree t i j q at lt w kept1 in
      let rest = slice buf z (length buf) in
      let (disk2, writes, kept2, have) =
        write_blocks-leaves n (i + 1) j rest t1 (omega (arith, e)) le below
          (next-Writable t i j q at lt w kept1)
          (omega
            (arith, more, full, length-take (length buf - z) (drop z buf), length-drop z buf)) in
      let still : block_bytes fs disk2 q ≡ slice buf 0 z =
        kept2.same (q * z) z (λ c (b, lo, hi, at_b).
          blocks-Apart fs q c (λ f.
            w.distinct i b q (omega arith) (omega (arith, lo)) hi at (at_b ∙ ap some (sym f))))
        ∙ has in
      (
        disk2,
        write_blocks-cons inode i n buf fs disk disk1 disk2 wrote writes,
        Kept-cons fs disk disk1 disk2 (leaves t) i j q at lt kept1 kept2,
        rw (slice-from (leaves t) i n j q at e, still, have) (buffer_split buf z n),
      )

-- What `ext2_write_file` leaves: the inode, the bytes of the buffer in the blocks, and all bytes
-- apart from them.
pub write_file-leaves :
    (fs : Filesystem) (disk : Disk) (inode offset block_count place : ℕ) (buf ref : List ℕ)
    → get_inode_ref inode fs disk ≡ some ref
    → (t : Tree fs disk ref) → 0 < fs.block_size / 4
    → fs.block_size / 4 * (fs.block_size / 4) < 2 ^ 31
    → offset + block_count ≤ length (leaves t)
    → offset + block_count ≤ fs.block_size / 4 * (fs.block_size / 4) + direct_amount
    → Writable fs disk t offset (offset + block_count)
    → block_count * fs.block_size ≤ length buf
    → get_inode_offset inode fs ≡ some place
    → place + fs.partstart < 2 ^ 32
    → ((q : ℕ)
        → Among (leaves t) offset (offset + block_count) q
        → Apart fs place (get_inode_size fs) q)
    → (disk' : Disk) × (ext2_write_file inode offset buf block_count fs disk
        ≡ some (block_count, disk'))
      × (get_inode_ref inode fs disk' ≡ some ref)
      × Kept fs disk disk' (Among (leaves t) offset (offset + block_count))
      × (bytes_of fs disk' (slice (leaves t) offset (offset + block_count))
          ≡ slice buf 0 (block_count * fs.block_size))
unfolding ext2_write_file get_inode_ref
write_file-leaves fs disk inode offset block_count place buf ref at t some_fit square le below w
      full here small away =
    let W = Among (leaves t) offset (offset + block_count) in
    let (disk', wrote, kept, have) =
      write_blocks-leaves some_fit square block_count offset (offset + block_count) buf t refl le
        below w full in
    (
      disk',
      rw at wrote,
      rw (here) (disk_read-Kept fs disk disk' W place (get_inode_size fs) kept small away) ∙ at,
      kept,
      have,
    )
