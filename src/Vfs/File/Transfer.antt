-- ===== src/Vfs/File/Transfer.antt =====
-- `vfs_read_fd`: where it reads and what it leaves the offset at.
use yanix.Common.{
  ℕ, ◌+◌, ◌%◌, ◌^◌, ◌<◌, ◌≡◌, ◌≢◌, refl, ap, ◌∙◌, inl, inr, ◌⊎◌, true, false, Option, none, some,
  arith, ne→==, lt→ltb,
}
use native.Mathlib.Decide.{ℕ_discrete}
use yanix.Common.Int.{ℤ, pos}
use yanix.Fd.Vector.{FileDescriptor, Vector}
use yanix.Vfs.{Filesystem, Node, State, load, Cmd, ◌>>=◌}
use yanix.Vfs.Lookup.Names.{load-ok}
use yanix.Vfs.File.{u32, add_int, Transfer, vfs_read_fd, _vfs_read}
use yanix.Vfs.File.Stat.{vfs_lseek}
use yanix.Vfs.File.Seek.{
  Opened, at_offset, sought, get_fd-Opened, load_fd-Opened, set_seek-Opened, sought-Opened, settled,
  lseek_cur, lseek_set,
}

-- The function that serves a read: the node's own, or that of its file system.
abbrev pub Serves : (node_op fs_op : Transfer) → Node → Transfer → Type 0
Serves node_op fs_op n op =
    ((n.read ≡ true) × (op ≡ node_op))
    ⊎ ((n.read ≡ false)
        × (fs : Filesystem) × (n.fs_info ≡ some fs)
        × (fs.block_read ≡ true)
        × (op ≡ fs_op))

module _ (node_op fs_op op : Transfer) (i : ℕ) (e : FileDescriptor) (v : Vector) (s : State)
    (n : Node) (h : Opened i e v s) (ne : e.node ≢ 0) (at : s.node e.node ≡ some n) where
  -- A read hands the function the node, the offset and the flags, and adds what it returns to the
  -- offset.
  pub read-served :
      (amount : ℕ) (ret : ℤ) (w : Vector) (s1 : State) (z : ℕ)
      → Serves node_op fs_op n op
      → op e.node e.seek amount e.flags s ≡ some (ret, s1)
      → Opened i e w s1
      → add_int e.seek (u32 ret) ≡ some z
      → vfs_read_fd node_op fs_op (pos i) amount s ≡ some (ret, sought s1 w i e z)
  unfolding vfs_read_fd _vfs_read
  read-served amount ret w s1 z (inl (own, same)) run h1 sum =
      let run' : node_op e.node e.seek amount e.flags s ≡ some (ret, s1) = rw same at run in
      rw
        (
          get_fd-Opened i e v s h,
          load_fd-Opened i e v s h,
          load-ok e.node n s ne at,
          own,
          run',
          load_fd-Opened i e w s1 h1,
          sum,
          set_seek-Opened i e w s1 h1 z,
        )
        refl
  read-served amount ret w s1 z (inr (own, fs, has, block, same)) run h1 sum =
      let run' : fs_op e.node e.seek amount e.flags s ≡ some (ret, s1) = rw same at run in
      rw
        (
          get_fd-Opened i e v s h,
          load_fd-Opened i e v s h,
          load-ok e.node n s ne at,
          own,
          has,
          block,
          run',
          load_fd-Opened i e w s1 h1,
          sum,
          set_seek-Opened i e w s1 h1 z,
        )
        refl

-- A seek, a read, and the offset after it.
abbrev pub seek_read_tell : (node_op fs_op : Transfer) → (i offset amount : ℕ) → Cmd (Option ℕ)
seek_read_tell node_op fs_op i offset amount = do
  _ ← vfs_lseek (pos i) offset 0
  _ ← vfs_read_fd node_op fs_op (pos i) amount
  vfs_lseek (pos i) 0 1

add_int-low : (a b : ℕ) → a + b < 2 ^ 31 → add_int a b ≡ some (a + b)
add_int-low a b lt =
    rw
      (
        lt→ltb a (2 ^ 31) (omega (arith, lt)),
        lt→ltb b (2 ^ 31) (omega (arith, lt)),
        lt→ltb (a + b) (2 ^ 31) lt,
      )
      (let e : (a + b) % 2 ^ 32 ≡ a + b = omega (arith, lt) in ap some e)

-- After a seek to `offset`, `vfs_read_fd` of an open descriptor has its function read from there,
-- and where that function returns `k` and leaves the descriptor as it is, the offset is then
-- `offset + k`, where that is below 2 ^ 31.
pub vfs_read_fd-continues :
    (node_op fs_op op : Transfer) (i : ℕ) (e : FileDescriptor) (v w : Vector) (s s1 : State)
    (n : Node) (offset amount k : ℕ)
    → Opened i e v s
    → e.node ≢ 0
    → s.node e.node ≡ some n
    → Serves node_op fs_op n op
    → op e.node offset amount e.flags (sought s v i e offset) ≡ some (pos k, s1)
    → Opened i (record e { seek = offset }) w s1
    → offset + k < 2 ^ 31
    → (s2 : State) × (seek_read_tell node_op fs_op i offset amount s ≡ some (some (offset + k), s2))
vfs_read_fd-continues node_op fs_op op i e v w s s1 n offset amount k h ne at serves run h1 low =
    let e1 : FileDescriptor = record e { seek = offset } in
    let next = offset + k in
    let s2 = sought s1 w i e1 next in
    let h2 = sought-Opened i e1 w s1 h1 next in
    let e2 : FileDescriptor = record e1 { seek = next } in
    let same : k % 2 ^ 32 ≡ k = omega (arith, low) in
    let read =
      read-served node_op fs_op op i e1 (at_offset v i e offset) (sought s v i e offset) n
        (sought-Opened i e v s h offset) ne at amount (pos k) w s1 next serves run h1
        (rw same (add_int-low offset k low)) in
    let tell =
      lseek_cur i e2 (at_offset w i e1 next) s2 h2 0
      ∙ ap (settled s2 (at_offset w i e1 next) i e2) (add_int-low 0 next (omega (arith, low))) in
    let none_more : 0 + next ≡ next = omega arith in
    (
      sought s2 (at_offset w i e1 next) i e2 (0 + next),
      rw (lseek_set i e v s h offset 0 (omega arith) (omega arith), read, tell, none_more) refl,
    )

-- `vfs_read_fd` of a descriptor that is closed, or open on a node without a read function and
-- without a file system, faults.
pub vfs_read_fd-faults :
    (node_op fs_op : Transfer) (i : ℕ) (e : FileDescriptor) (v : Vector) (s : State) (n : Node)
    (amount : ℕ)
    → Opened i e v s
    → s.node e.node ≡ some n
    → n.read ≡ false
    → (e.node ≡ 0) ⊎ (n.fs_info ≡ none)
    → vfs_read_fd node_op fs_op (pos i) amount s ≡ none
unfolding vfs_read_fd _vfs_read load
vfs_read_fd-faults node_op fs_op i e v s n amount h at own (inl closed) =
    rw (get_fd-Opened i e v s h, load_fd-Opened i e v s h, closed) refl
vfs_read_fd-faults node_op fs_op i e v s n amount h at own (inr bare) = elim (ℕ_discrete e.node 0) [
  | yes closed ↦ rw (get_fd-Opened i e v s h, load_fd-Opened i e v s h, closed) refl
  | no ne ↦
      rw (get_fd-Opened i e v s h, load_fd-Opened i e v s h, ne→== e.node 0 ne, at, own, bare) refl
]
