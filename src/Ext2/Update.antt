-- ===== src/Ext2/Update.antt =====
-- An inode that is written back, and the other inodes.
use yanix.Common.{
  ℕ, ◌+◌, ◌-◌, ◌*◌, ◌/◌, ◌%◌, ◌^◌, ◌≤◌, ◌<◌, ◌≡◌, ◌≢◌, refl, sym, ap, ◌∙◌, inl, inr, some, List,
  arith, length, get_elem?, le→leb, slice, overwrite, length-overwrite, slice-overwrite_self,
  slice-overwrite_apart, get_elem?-overwrite, take_all,
}
use native.Mathlib.Nat.{mod-eq_of_lt}
use yanix.Fs.Read.{length-slice}
use yanix.Ext2.{
  BlockGroup, Filesystem, Disk, u32, get_inode_size, get_inode_ref, write_inode, ext2_disk_read,
  ext2_disk_write, ext2_update_node, u32_at, u32_bytes, size_field,
}
use yanix.Ext2.Inodes.{
  Layout, group, place, table, table_bytes, place-within, places-apart, get_inode_offset-place,
}

pub slice_all : (xs : List ℕ) (n : ℕ) → length xs ≡ n → slice xs 0 n ≡ xs
slice_all xs n e = take_all xs (n - 0) (omega arith)

-- The bytes of a little-endian number.
u32-bytes_lem :
    (n : ℕ)
    → n < 2 ^ 32
    → n % 2 ^ 8
        + n / 2 ^ 8 % 2 ^ 8 * 2 ^ 8
        + n / 2 ^ 16 % 2 ^ 8 * 2 ^ 16
        + n / 2 ^ 24 % 2 ^ 8 * 2 ^ 24
      ≡ n
u32-bytes_lem n lt = omega arith

-- A number that is written into a buffer is read back.
u32_at-overwrite :
    (xs : List ℕ) (i n : ℕ)
    → i + 4 ≤ length xs
    → n < 2 ^ 32
    → u32_at (overwrite xs i (u32_bytes n)) i ≡ some n
unfolding u32_at
u32_at-overwrite xs i n le lt =
    let at = λ (k : ℕ) (h : k < 4). get_elem?-overwrite (u32_bytes n) xs i k h le in
    let z : i + 0 ≡ i = omega arith in
    let first : get_elem? (overwrite xs i (u32_bytes n)) i ≡ some (n % 2 ^ 8) =
      sym (ap (get_elem? (overwrite xs i (u32_bytes n))) z) ∙ at 0 (omega arith) in
    rw (first, at 1 (omega arith), at 2 (omega arith), at 3 (omega arith))
      (ap some (u32-bytes_lem n lt))

-- A transfer within the disk.
pub disk_read-slice :
    (p size : ℕ) (fs : Filesystem) (disk : Disk)
    → p + size + fs.partstart ≤ length disk
    → p + fs.partstart < 2 ^ 32
    → ext2_disk_read p size fs disk ≡ some (slice disk (p + fs.partstart) (p + fs.partstart + size))
unfolding ext2_disk_read
disk_read-slice p size fs disk le lt =
    let e : u32 (p + fs.partstart) ≡ p + fs.partstart = mod-eq_of_lt lt in
    rw (e, le→leb (p + fs.partstart + size) (length disk) (omega arith)) refl

pub disk_write-overwrite :
    (p : ℕ) (bytes : List ℕ) (fs : Filesystem) (disk : Disk)
    → p + length bytes + fs.partstart ≤ length disk
    → p + fs.partstart < 2 ^ 32
    → ext2_disk_write p bytes fs disk ≡ some (overwrite disk (p + fs.partstart) bytes)
unfolding ext2_disk_write
disk_write-overwrite p bytes fs disk le lt =
    let e : u32 (p + fs.partstart) ≡ p + fs.partstart = mod-eq_of_lt lt in
    rw (e, le→leb (p + fs.partstart + length bytes) (length disk) (omega arith)) refl

-- The inode is one of a group that is there, and its entry is on the disk.
pub record Stands (fs : Filesystem) (disk : Disk) (inode : ℕ) : Type 0 where
  pub pos : 0 < inode
  pub small : inode < 2 ^ 32
  pub bg : BlockGroup
  pub at : get_elem? fs.blockgroup_list (group fs inode) ≡ some bg
  pub on_disk : table fs bg + table_bytes fs + fs.partstart ≤ length disk

-- The entry of an inode on a disk.
abbrev entry : Filesystem → BlockGroup → ℕ → Disk → List ℕ
entry fs bg inode disk =
    let p = place fs bg inode + fs.partstart in slice disk p (p + get_inode_size fs)

get_inode_ref-entry :
    (fs : Filesystem) (disk : Disk) (inode : ℕ) (bg : BlockGroup)
    → Layout fs
    → 0 < inode
    → inode < 2 ^ 32
    → get_elem? fs.blockgroup_list (group fs inode) ≡ some bg
    → table fs bg + table_bytes fs + fs.partstart ≤ length disk
    → get_inode_ref inode fs disk ≡ some (entry fs bg inode disk)
unfolding get_inode_ref
get_inode_ref-entry fs disk inode bg h pos_i small at le =
    let within = place-within fs bg inode h in
    rw (get_inode_offset-place fs bg inode h pos_i small at) (
      disk_read-slice (place fs bg inode) (get_inode_size fs) fs disk (omega (arith, within))
        (omega (arith, within, h.fits (group fs inode) bg at)))

-- `ext2_update_node` never faults on a disk with whole inodes of eight bytes or more. The inode then
-- has the length as its size, and the entries of all other inodes are as they were.
pub update_node-size :
    (fs : Filesystem) (disk : Disk) (inode filelength : ℕ)
    → Layout fs
    → Stands fs disk inode
    → 8 ≤ get_inode_size fs
    → filelength < 2 ^ 32
    → (disk' : Disk) × (ref : List ℕ) × (ext2_update_node inode filelength fs disk ≡ some disk')
      × (get_inode_ref inode fs disk' ≡ some ref)
      × (u32_at ref size_field ≡ some filelength)
      × ((j : ℕ)
          → j ≢ inode
          → Stands fs disk j
          → get_inode_ref j fs disk' ≡ get_inode_ref j fs disk)
unfolding ext2_update_node write_inode
update_node-size fs disk inode filelength h s wide small =
    let z = get_inode_size fs in
    let p = place fs s.bg inode in
    let old = entry fs s.bg inode disk in
    let new = overwrite old size_field (u32_bytes filelength) in
    let within = place-within fs s.bg inode h in
    let low = h.fits (group fs inode) s.bg s.at in
    let long : length old ≡ z =
      length-slice disk (p + fs.partstart) z (omega (arith, within, s.on_disk)) in
    let long' : length new ≡ z = length-overwrite old size_field (u32_bytes filelength) ∙ long in
    let whole : slice new 0 z ≡ new = slice_all new z long' in
    let disk' = overwrite disk (p + fs.partstart) new in
    let size = length-overwrite disk (p + fs.partstart) new in
    let read = get_inode_ref-entry fs disk inode s.bg h s.pos s.small s.at s.on_disk in
    (
      disk',
      new,
      rw
          (
            read,
            le→leb (size_field + 4) (length old) (omega (arith, long, wide)),
            get_inode_offset-place fs s.bg inode h s.pos s.small s.at,
            le→leb z (length new) (omega (arith, long')),
            whole,
          )
          (disk_write-overwrite p new fs disk (omega (arith, long', within, s.on_disk))
            (omega (arith, within, low))),
      get_inode_ref-entry fs disk' inode s.bg h s.pos s.small s.at (rw size s.on_disk)
          ∙ ap some (
              ap (λ n. slice disk' (p + fs.partstart) (p + fs.partstart + n)) (sym long')
              ∙ slice-overwrite_self new disk (p + fs.partstart)
                  (omega (arith, long', within, s.on_disk))),
      u32_at-overwrite old size_field filelength (omega (arith, long, wide)) small,
      λ j ne t.
          (let q = place fs t.bg j in
            let within_j = place-within fs t.bg j h in
            get_inode_ref-entry fs disk' j t.bg h t.pos t.small t.at (rw size t.on_disk)
            ∙ ap some (
                slice-overwrite_apart new disk (p + fs.partstart) (q + fs.partstart)
                  (q + fs.partstart + z)
                  (elim (places-apart fs t.bg s.bg j inode h t.pos s.pos ne t.at s.at) [
                    | inl le ↦ inl (omega (arith, le))
                    | inr le ↦ inr (omega (arith, le, long'))
                  ])
                  (omega arith))
            ∙ sym (get_inode_ref-entry fs disk j t.bg h t.pos t.small t.at t.on_disk)),
    )
