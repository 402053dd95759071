-- ===== src/Ext2/Inodes.antt =====
-- Where inodes stand on the disk.
use yanix.Common.{
  ℕ, suc, ◌+◌, ◌-◌, ◌*◌, ◌/◌, ◌%◌, ◌^◌, ◌≤◌, ◌<◌, ◌≡◌, ◌≢◌, refl, sym, ap, ◌∙◌, inl, inr, ◌⊎◌, some,
  arith, get_elem?, ne→==, some-injective,
}
use native.Mathlib.Decide.{ℕ_discrete, dec_lt}
use mathlib.Core.Path.{subst}
use native.Mathlib.Nat.{
  mul-div_cancel, mul-div-mul_right, div-add-mod', mul_assoc, add-mul, mul-le-mul_right,
  le-mul_of_pos_right, mod-lt, mul-pos, mod-eq_of_lt,
}
use yanix.Ext2.{BlockGroup, Filesystem, u32, get_inode_size, get_inode_offset}

-- The group of an inode, and its index there.
abbrev pub group : Filesystem → ℕ → ℕ
group fs inode = (inode - 1) / fs.superblock.inodes_in_blockgroup

abbrev pub index : Filesystem → ℕ → ℕ
index fs inode = (inode - 1) % fs.superblock.inodes_in_blockgroup

-- The first byte of the table of a group, and the bytes of a table.
abbrev pub table : Filesystem → BlockGroup → ℕ
table fs bg = bg.start_inode_table * fs.block_size

abbrev pub table_bytes : Filesystem → ℕ
table_bytes fs = fs.superblock.inodes_in_blockgroup * get_inode_size fs

-- Blocks hold whole inodes, and the tables of the groups lie apart and below 2 ^ 32.
pub record Layout (fs : Filesystem) : Type 0 where
  pub inode_pos : 0 < get_inode_size fs
  pub per_block : ℕ
  pub some_fit : 0 < per_block
  pub whole : fs.block_size ≡ per_block * get_inode_size fs
  pub some_inodes : 0 < fs.superblock.inodes_in_blockgroup
  pub fits :
      (g : ℕ) (bg : BlockGroup)
      → get_elem? fs.blockgroup_list g ≡ some bg
      → table fs bg + table_bytes fs + fs.partstart < 2 ^ 32
  pub apart :
      (g h : ℕ) (bg bh : BlockGroup)
      → g ≢ h
      → get_elem? fs.blockgroup_list g ≡ some bg
      → get_elem? fs.blockgroup_list h ≡ some bh
      → (table fs bg + table_bytes fs ≤ table fs bh) ⊎ (table fs bh + table_bytes fs ≤ table fs bg)

-- The table entry of an inode.
abbrev pub place : Filesystem → BlockGroup → ℕ → ℕ
place fs bg inode = table fs bg + index fs inode * get_inode_size fs

-- An entry lies in the table of its group.
pub place-within :
    (fs : Filesystem) (bg : BlockGroup) (inode : ℕ)
    → Layout fs
    → place fs bg inode + get_inode_size fs ≤ table fs bg + table_bytes fs
place-within fs bg inode h =
    let n = fs.superblock.inodes_in_blockgroup in
    let lt : index fs inode < n = mod-lt (inode - 1) h.some_inodes in
    let le : suc (index fs inode) * get_inode_size fs ≤ n * get_inode_size fs =
      mul-le-mul_right (get_inode_size fs) lt in
    omega (arith, le, add-mul (index fs inode) 1 (get_inode_size fs))

-- The arithmetic of a slot in whole blocks: `x` entries of `z` bytes, `k` in a block of `b` bytes.
slot_lem :
    (x z k b t : ℕ)
    → 0 < z
    → 0 < k
    → b ≡ k * z
    → (t + x * z / b) * b + x % (b / z) * z ≡ t * b + x * z
slot_lem x z k b t pz pk e =
    let block : x * z / b ≡ x / k = ap (λ c. x * z / c) e ∙ mul-div-mul_right x k pz in
    let in_block : b / z ≡ k = ap (λ c. c / z) e ∙ mul-div_cancel k pz in
    let split : x / k * b + x % k * z ≡ x * z =
      ap (λ c. x / k * c + x % k * z) e
      ∙ ap (λ c. c + x % k * z) (sym (mul_assoc (x / k) k z))
      ∙ sym (add-mul (x / k * k) (x % k) z)
      ∙ ap (λ c. c * z) (div-add-mod' x k) in
    rw (block, in_block) (omega (arith, add-mul t (x / k) b, split))

u32-small : (n : ℕ) → n < 2 ^ 32 → u32 n ≡ n
u32-small n lt = mod-eq_of_lt lt

-- `get_inode_offset` of an inode whose group is there is its entry in the table of the group.
pub get_inode_offset-place :
    (fs : Filesystem) (bg : BlockGroup) (inode : ℕ)
    → Layout fs
    → 0 < inode
    → inode < 2 ^ 32
    → get_elem? fs.blockgroup_list (group fs inode) ≡ some bg
    → get_inode_offset inode fs ≡ some (place fs bg inode)
unfolding get_inode_offset
get_inode_offset-place fs bg inode h pos_i small at =
    let z = get_inode_size fs in
    let b = fs.block_size in
    let x = index fs inode in
    let k = h.per_block in
    let t = bg.start_inode_table in
    let n = fs.superblock.inodes_in_blockgroup in
    let in_block : b / z ≡ k = ap (λ c. c / z) h.whole ∙ mul-div_cancel k h.inode_pos in
    let b_pos : 0 < b = subst (λ c. 0 < c) (sym h.whole) (mul-pos h.some_fit h.inode_pos) in
    let before : u32 (inode + 2 ^ 32 - 1) ≡ inode - 1 = omega arith in
    let sum = slot_lem x z k b t h.inode_pos h.some_fit h.whole in
    let low : place fs bg inode < 2 ^ 32 =
      omega (arith, place-within fs bg inode h, h.fits (group fs inode) bg at, h.inode_pos) in
    let blocks = t + x * z / b in
    let one : blocks ≤ blocks * b = le-mul_of_pos_right blocks b_pos in
    rw
      (
        before,
        ne→== n 0 (λ e. omega (arith, e, h.some_inodes)),
        u32-small (x * z) (omega (arith, low)),
        ne→== b 0 (λ e. omega (arith, e, b_pos)),
        at,
        ne→== z 0 (λ e. omega (arith, e, h.inode_pos)),
        ne→== (b / z) 0 (λ e. omega (arith, e, in_block, h.some_fit)),
        u32-small blocks (omega (arith, one, sum, low)),
        u32-small (blocks * b) (omega (arith, sum, low)),
        u32-small (blocks * b + x % (b / z) * z) (omega (arith, sum, low)),
        sum,
      )
      refl

-- The entries of two inodes do not overlap.
pub places-apart :
    (fs : Filesystem) (bi bj : BlockGroup) (i j : ℕ)
    → Layout fs
    → 0 < i
    → 0 < j
    → i ≢ j
    → get_elem? fs.blockgroup_list (group fs i) ≡ some bi
    → get_elem? fs.blockgroup_list (group fs j) ≡ some bj
    → (place fs bi i + get_inode_size fs ≤ place fs bj j)
      ⊎ (place fs bj j + get_inode_size fs ≤ place fs bi i)
places-apart fs bi bj i j h pi pj ne at_i at_j = elim (ℕ_discrete (group fs i) (group fs j)) [
  | no away ↦
      let wi = place-within fs bi i h in
      let wj = place-within fs bj j h in
      elim (h.apart (group fs i) (group fs j) bi bj away at_i at_j) [
        | inl le ↦ inl (omega (arith, le, wi))
        | inr le ↦ inr (omega (arith, le, wj))
      ]
  | yes same ↦
      let z = get_inode_size fs in
      let table_same : table fs bi ≡ table fs bj =
        ap (table fs) (some-injective (sym at_i ∙ ap (get_elem? fs.blockgroup_list) same ∙ at_j)) in
      let n = fs.superblock.inodes_in_blockgroup in
      let di = div-add-mod' (i - 1) n in
      let dj = div-add-mod' (j - 1) n in
      let scaled = ap (λ c. c * n) same in
      elim (dec_lt (index fs i) (index fs j)) [
        | yes lt ↦ inl (
            omega (
              arith,
              table_same,
              add-mul (index fs i) 1 z,
              mul-le-mul_right {m = suc (index fs i)} {n = index fs j} z lt,
            ))
        | no ge ↦
            let lt : index fs j < index fs i = omega (arith, ge, ne, scaled, di, dj) in
            inr (
              omega (
                arith,
                table_same,
                add-mul (index fs j) 1 z,
                mul-le-mul_right {m = suc (index fs j)} {n = index fs i} z lt,
              ))
      ]
]
