-- ===== src/Ext2/Blocks/Kept.antt =====
-- What a write of blocks leaves on the disk, the tree of the pointers among it.
use yanix.Common.{
  ℕ, suc, ◌+◌, ◌*◌, ◌^◌, ◌≤◌, ◌<◌, ◌≡◌, ◌≢◌, refl, sym, ap, ◌∙◌, inl, inr, ◌⊎◌, some, List, [], ◌∷◌,
  arith, length, get_elem?, slice,
}
use native.Mathlib.Decide.{dec_lt}
use native.Mathlib.Nat.{mod-eq_of_lt, mul-le-mul_right, add-mul}
use yanix.Ext2.Blocks.{Holds, HoldAll, Indirect, Tree, leaves}
use yanix.Ext2.Transfer.{
  direct_block_pointer, single_indirect_block_pointer, double_indirect_block_pointer,
}
use yanix.Ext2.Blocks.Read.{Readable}
use yanix.Ext2.{Filesystem, Disk, u32, u32_at, ext2_disk_read}

-- The bytes from `p` on and a block do not overlap.
abbrev pub Apart : (fs : Filesystem) (p size block : ℕ) → Type 0
Apart fs p size block =
    (p + size ≤ block * fs.block_size) ⊎ (block * fs.block_size + fs.block_size ≤ p)

-- Two blocks do not overlap.
pub blocks-Apart :
    (fs : Filesystem) (b q : ℕ) → b ≢ q → Apart fs (b * fs.block_size) fs.block_size q
blocks-Apart fs b q ne = elim (dec_lt b q) [
  | yes lt ↦
      let le : suc b * fs.block_size ≤ q * fs.block_size = mul-le-mul_right fs.block_size lt in
      inl (omega (arith, le, add-mul b 1 fs.block_size))
  | no ge ↦
      let lt : q < b = omega (arith, ge, ne) in
      let le : suc q * fs.block_size ≤ b * fs.block_size = mul-le-mul_right fs.block_size lt in
      inr (omega (arith, le, add-mul q 1 fs.block_size))
]

-- The disk is as long, and bytes apart from the blocks are as they were.
pub record Kept (fs : Filesystem) (disk disk' : Disk) (Written : ℕ → Type 0) : Type 0 where
  pub long : length disk' ≡ length disk
  pub same :
      (p size : ℕ)
      → ((q : ℕ) → Written q → Apart fs p size q)
      → slice disk' (p + fs.partstart) (p + fs.partstart + size)
        ≡ slice disk (p + fs.partstart) (p + fs.partstart + size)

-- A transfer apart from what was written reads what it did.
pub disk_read-Kept :
    (fs : Filesystem) (disk disk' : Disk) (Written : ℕ → Type 0) (p size : ℕ)
    → Kept fs disk disk' Written
    → p + fs.partstart < 2 ^ 32
    → ((q : ℕ) → Written q → Apart fs p size q)
    → ext2_disk_read p size fs disk' ≡ ext2_disk_read p size fs disk
unfolding ext2_disk_read
disk_read-Kept fs disk disk' Written p size k small away =
    let e : u32 (p + fs.partstart) ≡ p + fs.partstart = mod-eq_of_lt small in
    rw (e, k.long, k.same p size away) refl

-- A block of pointers that is not written holds its pointers.
abbrev pub Unwritten : Filesystem → (ℕ → Type 0) → ℕ → Type 0
Unwritten fs Written block =
    (block * fs.block_size + fs.partstart < 2 ^ 32) × ((q : ℕ) → Written q → block ≢ q)

-- A block of the disk reads as it did.
abbrev pub Intact : (fs : Filesystem) (disk disk' : Disk) (block : ℕ) → Type 0
Intact fs disk disk' block =
    ext2_disk_read (u32 (block * fs.block_size)) fs.block_size fs disk'
    ≡ ext2_disk_read (u32 (block * fs.block_size)) fs.block_size fs disk

pub Unwritten-Intact :
    {fs : Filesystem} {disk disk' : Disk} {Written : ℕ → Type 0} (block : ℕ)
    → Kept fs disk disk' Written
    → Unwritten fs Written block
    → Intact fs disk disk' block
Unwritten-Intact {fs} {disk} {disk'} {Written} block k (small, ne) =
    ap (λ p. ext2_disk_read p fs.block_size fs disk') (mod-eq_of_lt (omega (arith, small)))
    ∙ disk_read-Kept fs disk disk' Written (block * fs.block_size) fs.block_size k small
        (λ q w. blocks-Apart fs block q (ne q w))
    ∙ ap (λ p. ext2_disk_read p fs.block_size fs disk) (sym (mod-eq_of_lt (omega (arith, small))))

pub Holds-Intact :
    {fs : Filesystem} {disk disk' : Disk} (block : ℕ) (pointers : List ℕ)
    → Intact fs disk disk' block
    → Holds fs disk block pointers
    → Holds fs disk' block pointers
Holds-Intact block pointers same h = record {
  bytes = h.bytes;
  read = same ∙ h.read;
  count = h.count;
  words = h.words;
}

pub HoldAll-Intact :
    (fs : Filesystem) (disk disk' : Disk) (blocks : List ℕ) (pss : List (List ℕ))
    → ((i b : ℕ) → get_elem? blocks i ≡ some b → Intact fs disk disk' b)
    → HoldAll fs disk blocks pss
    → HoldAll fs disk' blocks pss
HoldAll-Intact fs disk disk' [] [] u h = tt
HoldAll-Intact fs disk disk' [] (ps ∷ pss) u h = absurd h
HoldAll-Intact fs disk disk' (b ∷ bs) [] u h = tt
HoldAll-Intact fs disk disk' (b ∷ bs) (ps ∷ pss) u (ne, h, full, hs) = (
  ne,
  Holds-Intact b ps (u 0 b refl) h,
  full,
  HoldAll-Intact fs disk disk' bs pss (λ i. u (suc i)) hs,
)

-- The blocks that stand from `i` up to `j` in a list.
abbrev pub Among : List ℕ → (i j : ℕ) → ℕ → Type 0
Among blocks i j q = (b : ℕ) × (i ≤ b) × (b < j) × (get_elem? blocks b ≡ some q)

-- The blocks of a file from `i` up to `j` are on the disk, no two of them are one block, and none holds
-- pointers of the inode.
pub record Writable (fs : Filesystem) (disk : Disk) {inode : List ℕ} (t : Tree fs disk inode)
    (i j : ℕ) : Type 0 where
  pub readable : (q : ℕ) → Among (leaves t) i j q → Readable fs disk q
  pub distinct :
      (b c q : ℕ)
      → i ≤ b
      → b < c
      → c < j
      → get_elem? (leaves t) b ≡ some q
      → get_elem? (leaves t) c ≢ some q
  pub single_apart : Unwritten fs (Among (leaves t) i j) t.single
  pub double_apart : Unwritten fs (Among (leaves t) i j) t.double
  pub seconds_apart :
      (k b : ℕ) → get_elem? t.seconds k ≡ some b → Unwritten fs (Among (leaves t) i j) b

pub Indirect-Intact :
    {fs : Filesystem} {disk disk' : Disk} (inode inode' : List ℕ) (named single : ℕ)
    (singles : List ℕ) (double : ℕ) (seconds : List ℕ) (doubles : List (List ℕ))
    → ((o : ℕ) → direct_block_pointer ≤ o → u32_at inode' o ≡ u32_at inode o)
    → Intact fs disk disk' single
    → Intact fs disk disk' double
    → ((k b : ℕ) → get_elem? seconds k ≡ some b → Intact fs disk disk' b)
    → Indirect fs disk inode named single singles double seconds doubles
    → Indirect fs disk' inode' named single singles double seconds doubles
Indirect-Intact inode inode' named single singles double seconds doubles same at_s at_d at_b
      (inl none_there) =
    inl none_there
Indirect-Intact inode inode' named single singles double seconds doubles same at_s at_d at_b
      (inr (twelve, at_single, held, inl no_doubles)) =
    inr (
      twelve,
      same single_indirect_block_pointer (omega arith) ∙ at_single,
      Holds-Intact single singles at_s held,
      inl no_doubles,
    )
Indirect-Intact inode inode' named single singles double seconds doubles same at_s at_d at_b
      (inr (twelve, at_single, held, inr (full, (at_double, ne, held', all)))) =
    inr (
      twelve,
      same single_indirect_block_pointer (omega arith) ∙ at_single,
      Holds-Intact single singles at_s held,
      inr (
        full,
        (
          same double_indirect_block_pointer (omega arith) ∙ at_double,
          ne,
          Holds-Intact double seconds at_d held',
          HoldAll-Intact _ _ _ seconds doubles at_b all,
        ),
      ),
    )

-- The tree on another disk, where the blocks of its pointers read as they did, and of an inode with the
-- same pointers.
abbrev pub tree_moved :
    {fs : Filesystem} {disk disk' : Disk} {inode inode' : List ℕ} (t : Tree fs disk inode)
    → ((o : ℕ) → direct_block_pointer ≤ o → u32_at inode' o ≡ u32_at inode o)
    → Intact fs disk disk' t.single
    → Intact fs disk disk' t.double
    → ((k b : ℕ) → get_elem? t.seconds k ≡ some b → Intact fs disk disk' b)
    → Tree fs disk' inode'
tree_moved {inode = inode} {inode' = inode'} t same single double seconds = record {
  direct = t.direct;
  twelve = t.twelve;
  at_direct = λ i q at. same (direct_block_pointer + 4 * i) (omega arith) ∙ t.at_direct i q at;
  single = t.single;
  singles = t.singles;
  double = t.double;
  seconds = t.seconds;
  doubles = t.doubles;
  indirect =
      Indirect-Intact inode inode' (length t.direct) t.single t.singles t.double t.seconds t.doubles
        same single double seconds t.indirect;
}

-- The tree on the disk when some blocks are written.
abbrev pub tree_kept :
    {fs : Filesystem} {disk disk' : Disk} {inode : List ℕ} (t : Tree fs disk inode)
    (Written : ℕ → Type 0)
    → Kept fs disk disk' Written
    → Unwritten fs Written t.single
    → Unwritten fs Written t.double
    → ((k b : ℕ) → get_elem? t.seconds k ≡ some b → Unwritten fs Written b)
    → Tree fs disk' inode
tree_kept t Written k single double seconds =
    tree_moved t (λ o le. refl) (Unwritten-Intact t.single k single)
      (Unwritten-Intact t.double k double) (λ n b at. Unwritten-Intact b k (seconds n b at))

-- Fewer blocks that are written.
pub Unwritten-less :
    (fs : Filesystem) (V W : ℕ → Type 0) (block : ℕ)
    → ((q : ℕ) → W q → V q)
    → Unwritten fs V block
    → Unwritten fs W block
Unwritten-less fs V W block sub (small, ne) = (small, λ q w. ne q (sub q w))

pub Readable-Kept :
    {fs : Filesystem} {disk disk' : Disk} (W : ℕ → Type 0) (q : ℕ)
    → Kept fs disk disk' W
    → Readable fs disk q
    → Readable fs disk' q
Readable-Kept W q k r = record {
  nonzero = r.nonzero;
  on_disk = rw (k.long) (r.on_disk);
  small = r.small;
}

-- Fewer blocks of a file that can be written.
pub Writable-within :
    {fs : Filesystem} {disk : Disk} {inode : List ℕ} (t : Tree fs disk inode) (i j a b : ℕ)
    → i ≤ a
    → b ≤ j
    → Writable fs disk t i j
    → Writable fs disk t a b
Writable-within {fs} t i j a b lo hi w =
    let sub : (q : ℕ) → Among (leaves t) a b q → Among (leaves t) i j q =
      λ q (c, above, below, at). (c, omega (arith, lo, above), omega (arith, hi, below), at) in
    let less = λ (c : ℕ). Unwritten-less fs (Among (leaves t) i j) (Among (leaves t) a b) c sub in
    record {
      readable = λ q m. w.readable q (sub q m);
      distinct = λ c d q above lt below.
          w.distinct c d q (omega (arith, lo, above)) lt (omega (arith, hi, below));
      single_apart = less t.single w.single_apart;
      double_apart = less t.double w.double_apart;
      seconds_apart = λ k c at. less c (w.seconds_apart k c at);
    }
