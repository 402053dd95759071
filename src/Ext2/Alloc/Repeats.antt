-- ===== src/Ext2/Alloc/Repeats.antt =====
-- On a disk whose file system starts past its first byte, `alloc_inode` gives one number twice.
use yanix.Common.{
  ℕ, zero, suc, ◌+◌, ◌-◌, ◌*◌, ◌/◌, ◌≤◌, ◌≡◌, refl, sym, ap, ◌∙◌, inl, inr, ◌⊎◌, Option, none, some,
  List, arith, length, get_elem?, le→leb, lt→leb, slice, overwrite, length-overwrite,
  slice-overwrite_apart, >>=-eq-some, some-injective, none_ne_some, Option-cases, ◌>>=◌, drop,
  length-take,
}
use mathlib.Core.Path.{subst}
use native.Mathlib.Decide.{dec_le}
use yanix.Libk.Math.{roundup}
use yanix.Ext2.{BlockGroup, Filesystem, Disk, u32, disk_read, disk_write}
use yanix.Ext2.Alloc.{Found, search_bitmap, choose, settle, search_groups, alloc_bit, alloc_inode}

-- Where the bitmap of inodes of a group is read, and where it is written.
abbrev pub read_at : Filesystem → BlockGroup → ℕ
read_at fs bgd = u32 (u32 (bgd.inode_bitmap * fs.block_size) + fs.partstart)

abbrev pub written_at : Filesystem → BlockGroup → ℕ
written_at fs bgd = u32 (bgd.inode_bitmap * fs.block_size)

-- No bitmap is written where one is read.
abbrev pub Shifted : Filesystem → Type 0
Shifted fs =
    (g h : ℕ) (bg bh : BlockGroup)
    → get_elem? fs.blockgroup_list g ≡ some bg
    → get_elem? fs.blockgroup_list h ≡ some bh
    → (read_at fs bg + fs.block_size ≤ written_at fs bh)
      ⊎ (written_at fs bh + fs.block_size ≤ read_at fs bg)

-- The disks have the same bitmaps.
record Agree (fs : Filesystem) (disk disk' : Disk) : Type 0 where
  size : length disk' ≡ length disk
  same :
      (g : ℕ) (bg : BlockGroup)
      → get_elem? fs.blockgroup_list g ≡ some bg
      → disk_read (read_at fs bg) fs.block_size disk' ≡ disk_read (read_at fs bg) fs.block_size disk

search_groups-Agree :
    (fs : Filesystem) (disk disk' : Disk) (n i : ℕ)
    → Agree fs disk disk'
    → search_groups (λ bgd. bgd.inode_bitmap) fs.partstart fs disk' i n
      ≡ search_groups (λ bgd. bgd.inode_bitmap) fs.partstart fs disk i n
unfolding search_groups
search_groups-Agree fs disk disk' zero i h = refl
search_groups-Agree fs disk disk' (suc n) i h =
    let ind = search_groups-Agree fs disk disk' n (i + 1) h in
    elim (Option-cases (get_elem? fs.blockgroup_list i)) [
      | inl e ↦ rw e refl
      | inr (bg, e) ↦
          rw (e, h.same i bg e)
            (ap
              (λ r. disk_read (read_at fs bg) fs.block_size disk >>= λ bitmap.
                search_bitmap bitmap 0 (fs.block_size / 4) >>= λ found. choose found bitmap i r)
              ind)
    ]

-- A window of the disk that is written leaves the bitmaps.
written-Agree :
    (fs : Filesystem) (disk : Disk) (h : ℕ) (bh : BlockGroup) (bytes : List ℕ)
    → Shifted fs
    → get_elem? fs.blockgroup_list h ≡ some bh
    → length bytes ≤ fs.block_size
    → Agree fs disk (overwrite disk (written_at fs bh) bytes)
written-Agree fs disk h bh bytes shifted at_h le =
    let size = length-overwrite disk (written_at fs bh) bytes in
    record {
      size = size;
      same = λ g bg at_g.
          (let r = read_at fs bg in
            let away : (r + fs.block_size ≤ written_at fs bh)
                ⊎ (written_at fs bh + length bytes ≤ r) =
              elim (shifted g h bg bh at_g at_h) [
                | inl x ↦ inl x
                | inr x ↦ inr (omega (arith, x))
              ] in
            rw
              (
                size,
                slice-overwrite_apart bytes disk (written_at fs bh) r (r + fs.block_size) away
                    (omega arith),
              )
              refl);
    }

disk_write-ok :
    (p : ℕ) (bytes : List ℕ) (disk : Disk) {disk' : Disk}
    → disk_write p bytes disk ≡ some disk'
    → (p + length bytes ≤ length disk) × (overwrite disk p bytes ≡ disk')
disk_write-ok p bytes disk {disk'} e = elim (dec_le (p + length bytes) (length disk)) [
  | yes le ↦ (le, some-injective (sym (rw (le→leb (p + length bytes) (length disk) le) refl) ∙ e))
  | no past ↦
      absurd
        (none_ne_some (sym (rw (lt→leb (p + length bytes) (length disk) (omega arith)) refl) ∙ e))
]

-- The search and the write of the bit.
abbrev again : Filesystem → (amount : ℕ) → Disk → Option (ℕ × Disk)
again fs amount disk =
    search_groups (λ bgd. bgd.inode_bitmap) fs.partstart fs disk 0 amount >>= λ found.
    settle (λ bgd. bgd.inode_bitmap) fs found disk

abbrev Again : Filesystem → (amount : ℕ) → ℕ × Disk → Type 0
Again fs amount r = (disk'' : Disk) × (again fs amount r.1 ≡ some (r.0, disk''))

settled-Again :
    (fs : Filesystem) (disk : Disk) (amount : ℕ) (found : Option Found) (r : ℕ × Disk)
    → Shifted fs
    → search_groups (λ bgd. bgd.inode_bitmap) fs.partstart fs disk 0 amount ≡ some found
    → settle (λ bgd. bgd.inode_bitmap) fs found disk ≡ some r
    → Again fs amount r
unfolding settle
settled-Again fs disk amount none r shifted search run =
    subst (Again fs amount) (some-injective run) (disk, rw search refl)
settled-Again fs disk amount (some f) r shifted search run =
    let (bg, at, run1) = >>=-eq-some (get_elem? fs.blockgroup_list f.group) _ run in
    let bytes = slice f.bitmap 0 fs.block_size in
    let (disk', write, run2) = >>=-eq-some (disk_write (written_at fs bg) bytes disk) _ run1 in
    let (le, is) = disk_write-ok (written_at fs bg) bytes disk write in
    let short : length bytes ≤ fs.block_size =
      omega (arith, length-take (fs.block_size - 0) (drop 0 f.bitmap)) in
    let a : Agree fs disk disk' =
      subst (Agree fs disk) is (written-Agree fs disk f.group bg bytes shifted at short) in
    subst (Again fs amount) (some-injective run2) (
      overwrite disk' (written_at fs bg) bytes,
      rw
          (
            search_groups-Agree fs disk disk' amount 0 a,
            search,
            at,
            le→leb (written_at fs bg + length bytes) (length disk') (rw a.size le),
          )
          refl,
    )

-- The second `alloc_inode` in a row finds what the first found: on a disk whose file system starts so
-- far from its first byte that no bitmap is written where one is read, the same number is given out
-- again.
pub alloc_inode-repeats :
    (fs : Filesystem) (disk disk' : Disk) (n : ℕ)
    → Shifted fs
    → alloc_inode fs disk ≡ some (n, disk')
    → (disk'' : Disk) × (alloc_inode fs disk' ≡ some (n, disk''))
unfolding alloc_inode alloc_bit
alloc_inode-repeats fs disk disk' n shifted run =
    let (amount, rounded, run1) =
      >>=-eq-some (roundup fs.superblock.total_blocks fs.superblock.blocks_in_blockgroup) _ run in
    let (found, search, run2) =
      >>=-eq-some (search_groups (λ bgd. bgd.inode_bitmap) fs.partstart fs disk 0 amount) _ run1 in
    let (disk'', next) = settled-Again fs disk amount found (n, disk') shifted search run2 in
    (disk'', rw rounded next)
