-- ===== src/Vfs/File/Seek.antt =====
-- `vfs_lseek`, and the offsets that reads and writes go on from.
use yanix.Common.{
  ℕ, ◌+◌, ◌/◌, ◌%◌, ◌<◌, ◌≡◌, ◌≢◌, refl, ap, ◌∙◌, inl, inr, Option, none, some, ◌==◌, if◌then◌else◌,
  get_elem?, Bool-cases, lt→ltb, ne→==, set, lt-get_elem?, get_elem?-set_self,
}
use native.Mathlib.Decide.{ℕ_discrete}
use yanix.Common.Int.{pos}
use yanix.Fd.Vector.{FileDescriptor, Vector, get}
use yanix.Fd.Table.{deref, get_filedescriptor}
use yanix.Vfs.{Filesystem, Node, State, ◌>>=◌}
use yanix.Vfs.Lookup.Names.{load-ok}
use yanix.Vfs.File.{
  add_int, get_fd, load_fd, or_fault, with_files, seek_table, seek_entry, set_seek,
}
use yanix.Vfs.File.Stat.{seek_to, seek_cur, seek_end, stat_of, vfs_fstat, _vfs_stat, vfs_lseek}
use yanix.Libk.Math.{roundup}

roundup-blocks : (x : ℕ) → (b : ℕ) × (roundup x 512 ≡ some b)
unfolding roundup
roundup-blocks x = elim (Bool-cases (x % 512 == 0)) [
  | inl whole ↦ (x / 512, rw whole refl)
  | inr part ↦ (x / 512 + 1, rw part refl)
]

-- The descriptor `i` of the table `v` of the current task has the entry `e`.
pub record Opened (i : ℕ) (e : FileDescriptor) (v : Vector) (s : State) : Type 0 where
  pub table : s.files.current ≡ some v
  pub within : i < v.size
  pub entry : get_elem? v.buffer i ≡ some e

-- The table with another offset at descriptor `i`.
abbrev pub at_offset : Vector → ℕ → FileDescriptor → ℕ → Vector
at_offset v i e offset = record v { buffer = set v.buffer i (record e { seek = offset }) }

abbrev pub sought : State → Vector → ℕ → FileDescriptor → ℕ → State
sought s v i e offset = record s {
  files = record s.files { current = some (at_offset v i e offset) };
}

module _ (i : ℕ) (e : FileDescriptor) (v : Vector) (s : State) (h : Opened i e v s) where
  pub get_fd-Opened : get_fd (pos i) s ≡ some (some i, s)
  unfolding get_filedescriptor get
  get_fd-Opened = rw (h.table, lt→ltb i v.size h.within) refl

  pub load_fd-Opened : load_fd i s ≡ some (e, s)
  load_fd-Opened =
      let at : deref s.files i ≡ some e = rw h.table h.entry in ap (λ o. or_fault o s) at

  pub set_seek-Opened : (offset : ℕ) → set_seek i offset s ≡ some (tt, sought s v i e offset)
  set_seek-Opened offset =
      ap (λ t. with_files s (seek_table s.files i offset t)) h.table
      ∙ ap (λ o. with_files s (seek_entry s.files v i offset o)) h.entry

  pub sought-Opened :
      (offset : ℕ)
      → Opened i (record e { seek = offset }) (at_offset v i e offset) (sought s v i e offset)
  sought-Opened offset = record {
    table = refl;
    within = h.within;
    entry =
        get_elem?-set_self v.buffer i (record e { seek = offset })
          (lt-get_elem? v.buffer i h.entry);
  }

-- How a seek ends: it faults where the sum overflows.
abbrev pub settled : State → Vector → ℕ → FileDescriptor → Option ℕ → Option (Option ℕ × State)
settled s v i e none = none
settled s v i e (some z) = some (some z, sought s v i e z)

module _ (i : ℕ) (e : FileDescriptor) (v : Vector) (s : State) (h : Opened i e v s)
    (offset : ℕ) where
  sought_or_fault : (sum : Option ℕ) → (or_fault sum >>= λ z. seek_to i z) s ≡ settled s v i e sum
  sought_or_fault none = refl
  sought_or_fault (some z) = rw (set_seek-Opened i e v s h z) refl

  pub lseek_cur : vfs_lseek (pos i) offset 1 s ≡ settled s v i e (add_int offset e.seek)
  unfolding vfs_lseek
  lseek_cur =
      rw (get_fd-Opened i e v s h, load_fd-Opened i e v s h)
        (sought_or_fault (add_int offset e.seek))

  pub lseek_set :
      (whence : ℕ)
      → whence ≢ 1
      → whence ≢ 2
      → vfs_lseek (pos i) offset whence s ≡ some (some offset, sought s v i e offset)
  unfolding vfs_lseek
  lseek_set whence ne1 ne2 =
      rw
        (
          get_fd-Opened i e v s h,
          ne→== whence 1 ne1,
          ne→== whence 2 ne2,
          set_seek-Opened i e v s h offset,
        )
        refl

  module _ (n : Node) (fs : Filesystem) (ne : e.node ≢ 0) (at : s.node e.node ≡ some n)
      (has : n.fs_info ≡ some fs) where
    fstat-stat_of : (b : ℕ) × (vfs_fstat (pos i) s ≡ some (some (stat_of n fs e.mode b), s))
    unfolding vfs_fstat _vfs_stat
    fstat-stat_of =
        let (b, rounds) = roundup-blocks n.filelength in
        (
          b,
          rw
              (
                get_fd-Opened i e v s h,
                load_fd-Opened i e v s h,
                ne→== e.node 0 ne,
                load-ok e.node n s ne at,
                has,
                rounds,
              )
              refl,
        )

    lseek_end : vfs_lseek (pos i) offset 2 s ≡ settled s v i e (add_int offset n.filelength)
    unfolding vfs_lseek
    lseek_end =
        let (b, stat) = fstat-stat_of in
        rw (get_fd-Opened i e v s h, stat) (sought_or_fault (add_int offset n.filelength))

-- Where `vfs_lseek` goes to: from the start, from the offset or from the end of the file.
abbrev pub target : (whence offset seek filelength : ℕ) → Option ℕ
target whence offset seek filelength =
    if whence == seek_cur
    then add_int offset seek
    else if whence == seek_end
    then add_int offset filelength
    else some offset

-- `vfs_lseek` of an open descriptor on a file of a file system: it returns the new offset, counted from
-- the start, the old offset or the end of the file, and stores it in the descriptor; nothing else
-- changes. Where that sum overflows an `int`, and only there, it faults.
pub vfs_lseek-Sought :
    (i : ℕ) (e : FileDescriptor) (v : Vector) (s : State) (n : Node) (fs : Filesystem)
    (offset whence : ℕ)
    → Opened i e v s
    → e.node ≢ 0
    → s.node e.node ≡ some n
    → n.fs_info ≡ some fs
    → vfs_lseek (pos i) offset whence s ≡ settled s v i e (target whence offset e.seek n.filelength)
vfs_lseek-Sought i e v s n fs offset whence h ne at has = elim (ℕ_discrete whence 1) [
  | yes cur ↦ rw (cur) (lseek_cur i e v s h offset)
  | no ne1 ↦ elim (ℕ_discrete whence 2) [
    | yes end ↦ rw (end) (lseek_end i e v s h offset n fs ne at has)
    | no ne2 ↦
        rw (ne→== whence 1 ne1, ne→== whence 2 ne2) (lseek_set i e v s h offset whence ne1 ne2)
  ]
]
