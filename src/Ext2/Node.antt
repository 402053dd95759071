-- ===== src/Ext2/Node.antt =====
-- `ext2_update_node` on a file: its size is stored, and its blocks and their bytes stay.
use yanix.Common.{
  ℕ, suc, ◌+◌, ◌*◌, ◌^◌, ◌≤◌, ◌<◌, ◌≡◌, refl, sym, ap, ◌∙◌, inl, inr, some, List, [], ◌∷◌, arith,
  length, get_elem?, lt-get_elem?, slice, overwrite, length-overwrite, slice-overwrite_self,
  slice-overwrite_apart, get_elem?-overwrite_after, le→leb, lt→leb, some-injective, none_ne_some,
}
use native.Mathlib.Decide.{dec_le}
use native.Mathlib.Nat.{mod-eq_of_lt}
use yanix.Fs.Read.{length-slice}
use yanix.Ext2.{
  Filesystem, Disk, u32, u32_at, u32_bytes, size_field, get_inode_size, get_inode_ref, write_inode,
  ext2_disk_read, ext2_update_node,
}
use yanix.Ext2.Update.{slice_all, disk_read-slice, disk_write-overwrite}
use yanix.Ext2.Blocks.{leaves}
use yanix.Ext2.Blocks.Read.{block_bytes, bytes_of}
use yanix.Ext2.Blocks.Kept.{Apart, Intact, tree_moved}
use yanix.Ext2.Stored.{Stored, FileOf}

-- A transfer that was made is one within the disk.
disk_read-within :
    (p size : ℕ) (fs : Filesystem) (disk : Disk) (bytes : List ℕ)
    → p + fs.partstart < 2 ^ 32
    → ext2_disk_read p size fs disk ≡ some bytes
    → (p + size + fs.partstart ≤ length disk)
      × (slice disk (p + fs.partstart) (p + fs.partstart + size) ≡ bytes)
unfolding ext2_disk_read
disk_read-within p size fs disk bytes small read =
    elim (dec_le (p + size + fs.partstart) (length disk)) [
      | yes le ↦ (le, some-injective (sym (disk_read-slice p size fs disk le small) ∙ read))
      | no past ↦
          let e : u32 (p + fs.partstart) ≡ p + fs.partstart = mod-eq_of_lt small in
          absurd (
            none_ne_some (
              rw (e, lt→leb (p + fs.partstart + size) (length disk) (omega (arith, past))) at read))
    ]

u32_at-behind :
    (bytes ref : List ℕ) (a o : ℕ)
    → a + length bytes ≤ o
    → u32_at (overwrite ref a bytes) o ≡ u32_at ref o
unfolding u32_at
u32_at-behind bytes ref a o le =
    let at = λ (k : ℕ). get_elem?-overwrite_after bytes ref a (o + k) (omega (arith, le)) in
    rw (get_elem?-overwrite_after bytes ref a o le, at 1, at 2, at 3) refl

module _ {fs : Filesystem} {inode : ℕ} {disk : Disk} (s : Stored fs inode disk) (n : ℕ) where
  abbrev pub new_ref : List ℕ
  new_ref = overwrite s.ref size_field (u32_bytes n)

  abbrev pub new_disk : Disk
  new_disk = overwrite disk (s.place + fs.partstart) new_ref

  inode_read :
      (s.place + get_inode_size fs + fs.partstart ≤ length disk)
      × (slice disk (s.place + fs.partstart) (s.place + fs.partstart + get_inode_size fs) ≡ s.ref)
  unfolding get_inode_ref
  inode_read =
      disk_read-within s.place (get_inode_size fs) fs disk s.ref s.small (rw (s.at_place) at (s.at))

  length-ref : length s.ref ≡ get_inode_size fs
  length-ref =
      let (le, is) = inode_read in
      ap length (sym is)
      ∙ length-slice disk (s.place + fs.partstart) (get_inode_size fs) (omega (arith, le))

  length-new : length new_ref ≡ get_inode_size fs
  length-new = length-overwrite s.ref size_field (u32_bytes n) ∙ length-ref

  pub update_node-stored : ext2_update_node inode n fs disk ≡ some new_disk
  unfolding ext2_update_node write_inode
  update_node-stored =
      let z = get_inode_size fs in
      let (le, is) = inode_read in
      let whole : slice new_ref 0 z ≡ new_ref = slice_all new_ref z length-new in
      rw
        (
          s.at,
          le→leb (size_field + 4) (length s.ref) (omega (arith, length-ref, s.wide)),
          s.at_place,
          le→leb z (length new_ref) (omega (arith, length-new)),
          whole,
        )
        (disk_write-overwrite s.place new_ref fs disk (omega (arith, length-new, le)) s.small)

  read_new : get_inode_ref inode fs new_disk ≡ some new_ref
  unfolding get_inode_ref
  read_new =
      let z = get_inode_size fs in
      let (le, is) = inode_read in
      let same = length-overwrite disk (s.place + fs.partstart) new_ref in
      rw (s.at_place) (
        disk_read-slice s.place z fs new_disk (omega (arith, same, le)) s.small
        ∙ ap some (
            ap (λ k. slice new_disk (s.place + fs.partstart) (s.place + fs.partstart + k))
              (sym length-new)
            ∙ slice-overwrite_self new_ref disk (s.place + fs.partstart)
                (omega (arith, length-new, le))))

  block_kept :
      (q : ℕ)
      → Apart fs s.place (get_inode_size fs) q
      → block_bytes fs new_disk q ≡ block_bytes fs disk q
  block_kept q away =
      let start = q * fs.block_size + fs.partstart in
      slice-overwrite_apart new_ref disk (s.place + fs.partstart) start (start + fs.block_size)
        (elim away [
          | inl before ↦ inr (omega (arith, before, length-new))
          | inr behind ↦ inl (omega (arith, behind))
        ])
        (omega arith)

  block-Intact :
      (block : ℕ)
      → Apart fs s.place (get_inode_size fs) block
      → block * fs.block_size + fs.partstart < 2 ^ 32
      → Intact fs disk new_disk block
  unfolding ext2_disk_read
  block-Intact block away small =
      let e : u32 (block * fs.block_size) ≡ block * fs.block_size =
        mod-eq_of_lt (omega (arith, small)) in
      let f : u32 (block * fs.block_size + fs.partstart) ≡ block * fs.block_size + fs.partstart =
        mod-eq_of_lt small in
      let same = length-overwrite disk (s.place + fs.partstart) new_ref in
      rw (e, f, same, block_kept block away) refl

  bytes_kept :
      (blocks : List ℕ)
      → ((i q : ℕ) → get_elem? blocks i ≡ some q → Apart fs s.place (get_inode_size fs) q)
      → bytes_of fs new_disk blocks ≡ bytes_of fs disk blocks
  bytes_kept [] away = refl
  bytes_kept (q ∷ qs) away =
      rw (block_kept q (away 0 q refl), bytes_kept qs (λ i. away (suc i))) refl

  pub leaves_kept : bytes_of fs new_disk (leaves s.tree) ≡ bytes_of fs disk (leaves s.tree)
  leaves_kept =
      bytes_kept (leaves s.tree)
        (λ i q at. s.apart q (i, omega arith, lt-get_elem? (leaves s.tree) i at, at))

  -- The file has its blocks when its size is stored.
  pub FileOf-updated : FileOf fs inode (leaves s.tree) new_disk
  FileOf-updated =
      let w = s.writable in
      let same = length-overwrite disk (s.place + fs.partstart) new_ref in
      (
        record {
          ref = new_ref;
          at = read_new;
          tree =
              tree_moved s.tree
                (λ o le. u32_at-behind (u32_bytes n) s.ref size_field o (omega (arith, le)))
                (block-Intact s.tree.single s.single_clear w.single_apart.0)
                (block-Intact s.tree.double s.double_clear w.double_apart.0)
                (λ k b at. block-Intact b (s.seconds_clear k b at) (w.seconds_apart k b at).0);
          some_fit = s.some_fit;
          square = s.square;
          in_reach = s.in_reach;
          writable = record {
            readable = λ q m.
                (let r = w.readable q m in
                  record { nonzero = r.nonzero; on_disk = rw same r.on_disk; small = r.small });
            distinct = w.distinct;
            single_apart = w.single_apart;
            double_apart = w.double_apart;
            seconds_apart = w.seconds_apart;
          };
          place = s.place;
          at_place = s.at_place;
          small = s.small;
          wide = s.wide;
          apart = s.apart;
          single_clear = s.single_clear;
          double_clear = s.double_clear;
          seconds_clear = s.seconds_clear;
        },
        refl,
      )
