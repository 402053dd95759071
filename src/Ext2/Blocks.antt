-- ===== src/Ext2/Blocks.antt =====
-- The blocks of a file: the pointers of an inode as one list.
pub mod Read
pub mod Bytes
pub mod Kept
pub mod Write
use yanix.Common.{
  ℕ, zero, suc, ◌+◌, ◌-◌, ◌*◌, ◌/◌, ◌%◌, ◌^◌, ◌≤◌, ◌<◌, ◌≡◌, ◌≢◌, inl, inr, ◌⊎◌, refl, sym, ap, ◌∙◌,
  some, List, [], ◌∷◌, ◌++◌, arith, length, get_elem?, get_elem?-within, lt→ltb, le→ltb, ne→==,
  none_ne_some, slice, drop-cons, take, drop, get_elem?-append_left, get_elem?-append_right,
}
use native.Mathlib.Decide.{dec_lt}
use native.Mathlib.Nat.{
  mod-eq_of_lt, le-mul_of_pos_right, div-eq_of_lt, div-eq-sub-div, mod-eq-sub-mod,
}
use yanix.Ext2.Update.{disk_read-slice}
use yanix.Ext2.{Filesystem, Disk, u32, ext2_disk_read, u32_at, get_inode_ref}
use yanix.Ext2.Transfer.{
  word, direct_amount, direct_block_pointer, single_indirect_block_pointer,
  double_indirect_block_pointer, handle_indirect_bp, double_indirect, get_inode_data_offset,
  read_inode_block, read_blocks, ext2_read_file,
}

-- The block on the disk holds the pointers, from its start on.
pub record Holds (fs : Filesystem) (disk : Disk) (block : ℕ) (pointers : List ℕ) : Type 0 where
  pub bytes : List ℕ
  pub read : ext2_disk_read (u32 (block * fs.block_size)) fs.block_size fs disk ≡ some bytes
  pub count : length pointers ≤ fs.block_size / 4
  pub words : (i : ℕ) (q : ℕ) → get_elem? pointers i ≡ some q → word bytes i ≡ some q

-- Each of the blocks holds the pointers that stand at its place, and is not 0; all but the last are
-- full.
abbrev pub HoldAll : Filesystem → Disk → List ℕ → List (List ℕ) → Type 0
HoldAll fs disk [] [] = Unit {0}
HoldAll fs disk [] (ps ∷ pss) = ⊥
HoldAll fs disk (b ∷ bs) [] = Unit {0}
HoldAll fs disk (b ∷ bs) (ps ∷ pss) =
    (b ≢ 0)
    × Holds fs disk b ps
    × ((pss ≡ []) ⊎ (length ps ≡ fs.block_size / 4))
    × HoldAll fs disk bs pss

abbrev pub concat : List (List ℕ) → List ℕ
concat [] = []
concat (xs ∷ xss) = xs ++ concat xss

-- The double indirect block of an inode holds `seconds`, and the blocks there hold `doubles`.
abbrev pub Doubled :
    Filesystem → Disk → (inode : List ℕ) (double : ℕ) (seconds : List ℕ) → List (List ℕ) → Type 0
Doubled fs disk inode double seconds doubles =
    (u32_at inode double_indirect_block_pointer ≡ some double)
    × (double ≢ 0)
    × Holds fs disk double seconds
    × HoldAll fs disk seconds doubles

-- The indirect blocks of an inode: there is no single one before the `named` pointers in the inode are
-- used up, and no double one before that one is.
abbrev pub Indirect :
    Filesystem
    → Disk
    → (inode : List ℕ) (named single : ℕ) (singles : List ℕ) (double : ℕ) (seconds : List ℕ)
    → List (List ℕ)
    → Type 0
Indirect fs disk inode named single singles double seconds doubles =
    ((singles ≡ []) × (doubles ≡ []))
    ⊎ ((named ≡ direct_amount)
        × (u32_at inode single_indirect_block_pointer ≡ some single)
        × Holds fs disk single singles
        × ((doubles ≡ [])
            ⊎ ((length singles ≡ fs.block_size / 4)
                × Doubled fs disk inode double seconds doubles)))

-- The tree of the pointers of an inode, without the third level.
pub record Tree (fs : Filesystem) (disk : Disk) (inode : List ℕ) : Type 0 where
  pub direct : List ℕ
  pub twelve : length direct ≤ direct_amount
  pub at_direct :
      (i q : ℕ) → get_elem? direct i ≡ some q → u32_at inode (direct_block_pointer + 4 * i) ≡ some q
  pub single : ℕ
  pub singles : List ℕ
  pub double : ℕ
  pub seconds : List ℕ
  pub doubles : List (List ℕ)
  pub indirect : Indirect fs disk inode (length direct) single singles double seconds doubles

-- The blocks of the file in order: those that the inode names, then those of its single indirect block,
-- and then those of the blocks that its double indirect block names.
abbrev pub leaves : {fs : Filesystem} {disk : Disk} {inode : List ℕ} → Tree fs disk inode → List ℕ
leaves t = t.direct ++ (t.singles ++ concat t.doubles)

-- A pointer that is not 0 goes to its block.
handle_indirect-Holds :
    (fs : Filesystem) (disk : Disk) (block i q : ℕ) (pointers : List ℕ)
    → Holds fs disk block pointers
    → get_elem? pointers i ≡ some q
    → q * fs.block_size ≢ 0
    → q * fs.block_size < 2 ^ 32
    → handle_indirect_bp block i fs disk ≡ some (q * fs.block_size)
unfolding handle_indirect_bp
handle_indirect-Holds fs disk block i q pointers h at ne lt =
    let small : u32 (q * fs.block_size) ≡ q * fs.block_size = mod-eq_of_lt lt in
    rw (h.read, h.words i q at, small, ne→== (q * fs.block_size) 0 ne) refl

-- The element of a list of lists that are of one length `p`, but for the last.
get_elem?-concat :
    (fs : Filesystem) (disk : Disk) (blocks : List ℕ) (pss : List (List ℕ)) (j q : ℕ)
    → HoldAll fs disk blocks pss
    → 0 < fs.block_size / 4
    → get_elem? (concat pss) j ≡ some q
    → (b : ℕ) × (ps : List ℕ) × (get_elem? blocks (j / (fs.block_size / 4)) ≡ some b)
      × (b ≢ 0)
      × Holds fs disk b ps
      × (get_elem? ps (j % (fs.block_size / 4)) ≡ some q)
get_elem?-concat fs disk blocks [] j q h pos_p at = absurd (none_ne_some at)
get_elem?-concat fs disk [] (ps ∷ pss) j q h pos_p at = absurd h
get_elem?-concat fs disk (b ∷ bs) (ps ∷ pss) j q (ne, h, full, hs) pos_p at =
    elim (dec_lt j (length ps)) [
      | yes first ↦
          let low : j < fs.block_size / 4 = omega (arith, first, h.count) in
          let zero_div : j / (fs.block_size / 4) ≡ 0 = div-eq_of_lt low in
          let same : j % (fs.block_size / 4) ≡ j = mod-eq_of_lt low in
          (
            b,
            ps,
            ap (get_elem? (b ∷ bs)) zero_div,
            ne,
            h,
            ap (get_elem? ps) same ∙ sym (get_elem?-append_left ps (concat pss) j first) ∙ at,
          )
      | no later ↦
          let behind : get_elem? (concat pss) (j - length ps) ≡ some q =
            sym (get_elem?-append_right ps (concat pss) j (omega (arith, later))) ∙ at in
          elim full [
            | inl none_more ↦ absurd (
                none_ne_some
                  (ap (λ l. get_elem? (concat l) (j - length ps)) (sym none_more) ∙ behind))
            | inr count ↦
                let p = fs.block_size / 4 in
                let (c, qs, at_c, ne_c, h_c, is) =
                  get_elem?-concat fs disk bs pss (j - p) q hs pos_p
                    (ap (λ n. get_elem? (concat pss) (j - n)) (sym count) ∙ behind) in
                (
                  c,
                  qs,
                  ap (get_elem? (b ∷ bs))
                        (div-eq-sub-div pos_p (omega (arith, later, count)) ∙ add-one ((j - p) / p))
                      ∙ at_c,
                  ne_c,
                  h_c,
                  ap (get_elem? qs) (mod-eq-sub-mod {n = j} {m = p} (omega (arith, later, count)))
                      ∙ is,
                )
          ]
    ]
  where
    add-one : (n : ℕ) → n + 1 ≡ suc n
    add-one n = omega arith

double_indirect-leaf :
    {fs : Filesystem} {disk : Disk} (inode : List ℕ) (double : ℕ) (seconds : List ℕ)
    (doubles : List (List ℕ)) (b q : ℕ)
    → Doubled fs disk inode double seconds doubles
    → 0 < fs.block_size / 4
    → fs.block_size / 4 + direct_amount ≤ b
    → b < 2 ^ 32
    → get_elem? (concat doubles) (b - direct_amount - fs.block_size / 4) ≡ some q
    → q * fs.block_size ≢ 0
    → q * fs.block_size < 2 ^ 32
    → double_indirect inode b (fs.block_size / 4) fs disk ≡ some (q * fs.block_size)
unfolding double_indirect
double_indirect-leaf {fs} {disk} inode double seconds doubles b q (at_double, nonnull, held, all)
      some_fit le small at ne lt =
    let p = fs.block_size / 4 in
    let j = b - direct_amount - p in
    let (c, ps, at_c, ne_c, h_c, is) =
      get_elem?-concat fs disk seconds doubles j q all some_fit at in
    let wrapped : u32 (b + 2 ^ 32 - p - direct_amount) ≡ j = omega arith in
    rw
      (
        at_double,
        ne→== double 0 nonnull,
        held.read,
        wrapped,
        ne→== p 0 (λ e. omega (arith, e, some_fit)),
        held.words (j / p) c at_c,
        ne→== c 0 ne_c,
      )
      (handle_indirect-Holds fs disk c (j % p) q ps h_c is ne lt)

module _ {fs : Filesystem} {disk : Disk} {inode : List ℕ} (t : Tree fs disk inode)
    (some_fit : 0 < fs.block_size / 4) where
  -- A block that the inode does not name itself.
  data_offset-indirect :
      (b q : ℕ)
      → fs.block_size / 4 * (fs.block_size / 4) < 2 ^ 31
      → b < fs.block_size / 4 * (fs.block_size / 4) + direct_amount
      → length t.direct ≤ b
      → get_elem? (t.singles ++ concat t.doubles) (b - length t.direct) ≡ some q
      → q * fs.block_size ≢ 0
      → q * fs.block_size < 2 ^ 32
      → get_inode_data_offset inode b fs disk ≡ some (q * fs.block_size)
  unfolding get_inode_data_offset
  data_offset-indirect b q square below past at ne lt = elim t.indirect [
    | inl (no_singles, no_doubles) ↦ absurd (
        none_ne_some (
          ap (λ l. get_elem? l (b - length t.direct))
            (ap (λ l. [] ++ concat l) (sym no_doubles)
              ∙ ap (λ l. l ++ concat t.doubles) (sym no_singles))
          ∙ at))
    | inr (twelve, at_single, held, more) ↦
        let p = fs.block_size / 4 in
        let i = b - direct_amount in
        let rest : get_elem? (t.singles ++ concat t.doubles) i ≡ some q =
          ap (λ n. get_elem? (t.singles ++ concat t.doubles) (b - n)) (sym twelve) ∙ at in
        elim (dec_lt i (length t.singles)) [
          | yes single ↦
              let here = sym (get_elem?-append_left t.singles (concat t.doubles) i single) ∙ rest in
              rw
                (
                  le→ltb b direct_amount (omega (arith, past, twelve)),
                  lt→ltb b (p + direct_amount) (omega (arith, single, held.count, past, twelve)),
                  at_single,
                )
                (handle_indirect-Holds fs disk t.single i q t.singles held here ne lt)
          | no double ↦
              let behind : get_elem? (concat t.doubles) (i - length t.singles) ≡ some q =
                sym (get_elem?-append_right t.singles (concat t.doubles) i (omega (arith, double)))
                ∙ rest in
              elim more [
                | inl no_doubles ↦ absurd (
                    none_ne_some (
                      ap (λ l. get_elem? (concat l) (i - length t.singles)) (sym no_doubles)
                      ∙ behind))
                | inr (full, doubled) ↦
                    let far : get_elem? (concat t.doubles) (i - p) ≡ some q =
                      ap (λ n. get_elem? (concat t.doubles) (i - n)) (sym full) ∙ behind in
                    rw
                      (
                        le→ltb b direct_amount (omega (arith, past, twelve)),
                        le→ltb b (p + direct_amount) (omega (arith, double, full, past, twelve)),
                        lt→ltb (p * p) (2 ^ 31) square,
                        lt→ltb b (p * p + direct_amount) below,
                      )
                      (double_indirect-leaf inode t.double t.seconds t.doubles b q doubled some_fit
                        (omega (arith, double, full, past, twelve)) (omega (arith, square, below))
                        far ne lt)
              ]
        ]
  ]

  -- The offset of a block of a file is that of its leaf, for every leaf that is not 0 and whose number
  -- is below `p * p + 12`, `p` being the pointers in a block.
  pub data_offset-leaf :
      (b q : ℕ)
      → fs.block_size / 4 * (fs.block_size / 4) < 2 ^ 31
      → b < fs.block_size / 4 * (fs.block_size / 4) + direct_amount
      → get_elem? (leaves t) b ≡ some q
      → q * fs.block_size ≢ 0
      → q * fs.block_size < 2 ^ 32
      → get_inode_data_offset inode b fs disk ≡ some (q * fs.block_size)
  unfolding get_inode_data_offset
  data_offset-leaf b q square below at ne lt =
      let small : u32 (q * fs.block_size) ≡ q * fs.block_size = mod-eq_of_lt lt in
      elim (dec_lt b (length t.direct)) [
        | yes direct ↦
            let here =
              sym (get_elem?-append_left t.direct (t.singles ++ concat t.doubles) b direct) ∙ at in
            rw
              (
                lt→ltb b direct_amount (omega (arith, direct, t.twelve)),
                t.at_direct b q here,
                small,
              )
              refl
        | no past ↦
            data_offset-indirect b q square below (omega (arith, past))
              (sym (
                  get_elem?-append_right t.direct (t.singles ++ concat t.doubles) b
                    (omega (arith, past)))
                ∙ at)
              ne lt
      ]
