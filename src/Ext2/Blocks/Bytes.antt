-- ===== src/Ext2/Blocks/Bytes.antt =====
-- The bytes of blocks in a row: windows of blocks are windows of the bytes, and a write of a window.
use yanix.Common.{
  ℕ, suc, ◌+◌, ◌-◌, ◌*◌, ◌≤◌, ◌<◌, ◌≡◌, ◌≢◌, refl, sym, ap, ◌∙◌, some, List, [], ◌∷◌, ◌++◌, arith,
  length, get_elem?, slice, take, drop, overwrite, length-append, length-take, length-drop,
  drop-drop, take-drop, take-append, drop-append, get_elem?-take, get_elem?-drop, overwrite_middle,
}
use mathlib.Core.List.{append_assoc}
use native.Mathlib.Nat.{add-mul}
use yanix.Fs.Read.{length-slice}
use yanix.Ext2.{Filesystem, Disk}
use yanix.Ext2.Blocks.Read.{Readable, block_bytes, bytes_of}
use yanix.Ext2.Blocks.Kept.{Kept, blocks-Apart, Among}

module _ (fs : Filesystem) (disk : Disk) where
  -- The blocks are on the disk.
  abbrev pub AllReadable : List ℕ → Type 0
  AllReadable blocks = (i q : ℕ) → get_elem? blocks i ≡ some q → Readable fs disk q

  length-block : (q : ℕ) → Readable fs disk q → length (block_bytes fs disk q) ≡ fs.block_size
  length-block q r =
      length-slice disk (q * fs.block_size + fs.partstart) fs.block_size (omega (arith, r.on_disk))

  pub length-bytes_of :
      (blocks : List ℕ)
      → AllReadable blocks
      → length (bytes_of fs disk blocks) ≡ length blocks * fs.block_size
  length-bytes_of [] r = let e : 0 ≡ 0 * fs.block_size = omega arith in e
  length-bytes_of (q ∷ qs) r =
      let long = length-block q (r 0 q refl) in
      let ind = length-bytes_of qs (λ i. r (suc i)) in
      length-append (block_bytes fs disk q) (bytes_of fs disk qs)
      ∙ omega (arith, long, ind, add-mul (length qs) 1 fs.block_size)

  pub bytes_of-append :
      (xs ys : List ℕ) → bytes_of fs disk (xs ++ ys) ≡ bytes_of fs disk xs ++ bytes_of fs disk ys
  bytes_of-append [] ys = refl
  bytes_of-append (x ∷ xs) ys =
      ap (λ t. block_bytes fs disk x ++ t) (bytes_of-append xs ys)
      ∙ sym (append_assoc (block_bytes fs disk x) (bytes_of fs disk xs) (bytes_of fs disk ys))

  take-AllReadable : (blocks : List ℕ) (n : ℕ) → AllReadable blocks → AllReadable (take n blocks)
  take-AllReadable blocks n r i q at = r i q ((get_elem?-take blocks n i at).1)

  drop-AllReadable : (blocks : List ℕ) (n : ℕ) → AllReadable blocks → AllReadable (drop n blocks)
  drop-AllReadable blocks n r i q at = r (n + i) q (sym (get_elem?-drop blocks n i) ∙ at)

  parts :
      (blocks : List ℕ) (n : ℕ)
      → bytes_of fs disk blocks
        ≡ bytes_of fs disk (take n blocks) ++ bytes_of fs disk (drop n blocks)
  parts blocks n =
      ap (bytes_of fs disk) (sym (take-drop n blocks))
      ∙ bytes_of-append (take n blocks) (drop n blocks)

  -- The first blocks, and those behind them.
  module _ (blocks : List ℕ) (n : ℕ) (r : AllReadable blocks) (le : n ≤ length blocks) where
    first_bytes : length (bytes_of fs disk (take n blocks)) ≡ n * fs.block_size
    first_bytes =
        length-bytes_of (take n blocks) (take-AllReadable blocks n r)
        ∙ ap (λ k. k * fs.block_size) {x = length (take n blocks)} {y = n}
            (omega (arith, length-take n blocks, le))

    take-bytes_of :
        take (n * fs.block_size) (bytes_of fs disk blocks) ≡ bytes_of fs disk (take n blocks)
    take-bytes_of =
        ap (take (n * fs.block_size)) (parts blocks n)
        ∙ take-append (bytes_of fs disk (take n blocks)) (bytes_of fs disk (drop n blocks))
            (n * fs.block_size) first_bytes

    drop-bytes_of :
        drop (n * fs.block_size) (bytes_of fs disk blocks) ≡ bytes_of fs disk (drop n blocks)
    drop-bytes_of =
        ap (drop (n * fs.block_size)) (parts blocks n)
        ∙ drop-append (bytes_of fs disk (take n blocks)) (bytes_of fs disk (drop n blocks))
            (n * fs.block_size) first_bytes

  -- A window of the blocks.
  pub slice-bytes_of :
      (blocks : List ℕ) (b k : ℕ)
      → AllReadable blocks
      → b + k ≤ length blocks
      → slice (bytes_of fs disk blocks) (b * fs.block_size) ((b + k) * fs.block_size)
        ≡ bytes_of fs disk (slice blocks b (b + k))
  slice-bytes_of blocks b k r le =
      let z = fs.block_size in
      let e : (b + k) * z - b * z ≡ k * z = omega (arith, add-mul b k z) in
      let f : b + k - b ≡ k = omega arith in
      rw (e, f, drop-bytes_of blocks b r (omega (arith, le)))
        (take-bytes_of (drop b blocks) k (drop-AllReadable blocks b r)
          (omega (arith, length-drop b blocks, le)))

-- Blocks that are not written have the bytes that they had.
bytes_of-Kept :
    (fs : Filesystem) (disk disk' : Disk) (W : ℕ → Type 0) (blocks : List ℕ)
    → Kept fs disk disk' W
    → ((i q c : ℕ) → get_elem? blocks i ≡ some q → W c → q ≢ c)
    → bytes_of fs disk' blocks ≡ bytes_of fs disk blocks
bytes_of-Kept fs disk disk' W [] k ne = refl
bytes_of-Kept fs disk disk' W (q ∷ qs) k ne =
    let one : block_bytes fs disk' q ≡ block_bytes fs disk q =
      k.same (q * fs.block_size) fs.block_size (λ c w. blocks-Apart fs q c (ne 0 q c refl w)) in
    rw (one, bytes_of-Kept fs disk disk' W qs k (λ i. ne (suc i))) refl

-- The blocks before a window, in it, and behind it.
window_parts :
    (fs : Filesystem) (disk : Disk) (blocks : List ℕ) (b k : ℕ)
    → bytes_of fs disk blocks
      ≡ bytes_of fs disk (take b blocks)
        ++ (bytes_of fs disk (slice blocks b (b + k)) ++ bytes_of fs disk (drop (b + k) blocks))
window_parts fs disk blocks b k =
    let f : b + k - b ≡ k = omega arith in
    parts fs disk blocks b
    ∙ ap (λ t. bytes_of fs disk (take b blocks) ++ t)
        (parts fs disk (drop b blocks) k ∙ rw (f, drop-drop blocks b k) refl)

-- No two of the blocks are one.
abbrev pub Distinct : List ℕ → Type 0
Distinct blocks = (i j q : ℕ) → i < j → get_elem? blocks i ≡ some q → get_elem? blocks j ≢ some q

-- A window of blocks that is written is a window of the bytes that is replaced.
pub bytes_of-overwrite :
    (fs : Filesystem) (disk disk' : Disk) (blocks buf : List ℕ) (b k : ℕ)
    → AllReadable fs disk blocks
    → Distinct blocks
    → b + k ≤ length blocks
    → Kept fs disk disk' (Among blocks b (b + k))
    → length buf ≡ k * fs.block_size
    → bytes_of fs disk' (slice blocks b (b + k)) ≡ buf
    → bytes_of fs disk' blocks ≡ overwrite (bytes_of fs disk blocks) (b * fs.block_size) buf
bytes_of-overwrite fs disk disk' blocks buf b k r d le kept long have =
    let W = Among blocks b (b + k) in
    let window : length (bytes_of fs disk (slice blocks b (b + k))) ≡ k * fs.block_size =
      length-bytes_of fs disk (slice blocks b (b + k))
        (take-AllReadable fs disk (drop b blocks) (b + k - b) (drop-AllReadable fs disk blocks b r))
      ∙ ap (λ n. n * fs.block_size) (length-slice blocks b k le) in
    let before : bytes_of fs disk' (take b blocks) ≡ bytes_of fs disk (take b blocks) =
      bytes_of-Kept fs disk disk' W (take b blocks) kept (λ i q c at (j, lo, hi, at_j) e.
        let (lt, at') = get_elem?-take blocks b i at in
        d i j q (omega (arith, lt, lo)) at' (at_j ∙ ap some (sym e))) in
    let behind : bytes_of fs disk' (drop (b + k) blocks) ≡ bytes_of fs disk (drop (b + k) blocks) =
      bytes_of-Kept fs disk disk' W (drop (b + k) blocks) kept (λ i q c at (j, lo, hi, at_j) e.
        d j (b + k + i) q (omega (arith, hi)) (at_j ∙ ap some (sym e))
          (sym (get_elem?-drop blocks (b + k) i) ∙ at)) in
    window_parts fs disk' blocks b k
    ∙ rw (before, have, behind) refl
    ∙ sym (
        overwrite_middle (bytes_of fs disk (take b blocks))
          (bytes_of fs disk (slice blocks b (b + k))) buf (bytes_of fs disk (drop (b + k) blocks))
          (b * fs.block_size) (first_bytes fs disk blocks b r (omega (arith, le)))
          (long ∙ sym window))
    ∙ ap (λ t. overwrite t (b * fs.block_size) buf) (sym (window_parts fs disk blocks b k))
