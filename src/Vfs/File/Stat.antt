-- ===== src/Vfs/File/Stat.antt =====
-- kernel/fs/vfs/vfs.c: the calls that describe, seek, open and close a file.
use yanix.Common.{
  ℕ, zero, suc, ◌+◌, ◌*◌, ◌%◌, ◌/◌, ◌^◌, Bool, Option, none, some, ◌==◌, if◌then◌else◌,
}
use yanix.Common.Int.{ℤ, pos, negsuc}
use yanix.Libk.Math.{roundup}
use yanix.Fd.Table.{
  get_filedescriptor_node, get_filedescriptor_from_node, register_filedescriptor,
  close_filedescriptor,
}
use yanix.Vfs.{Ptr, null, String, Filesystem, Node, Cmd, pure, ◌>>=◌, ◌>>◌, load}
use yanix.Vfs.Lookup.{vfs_find_path}
use yanix.Vfs.File.{add_int, with_files, on_files, get_fd, or_fault, load_fd, set_seek, get_fs}

abbrev pub vfs_file : ℕ
vfs_file = 1

abbrev pub vfs_directory : ℕ
vfs_directory = 2

abbrev pub vfs_chardevice : ℕ
vfs_chardevice = 3

abbrev pub vfs_blockdevice : ℕ
vfs_blockdevice = 4

abbrev pub vfs_pipe : ℕ
vfs_pipe = 5

abbrev pub vfs_symlink : ℕ
vfs_symlink = 6

abbrev pub vfs_socket : ℕ
vfs_socket = 9

-- `mode & S_IFMT`, in units of 2 ^ 12.
abbrev pub format : ℕ → ℕ
format mode = (mode / 2 ^ 12) % 2 ^ 4

unfoldable pub get_type : ℕ → ℕ
get_type mode =
    if format mode == 4
    then vfs_directory
    else if format mode == 2
    then vfs_chardevice
    else if format mode == 10
    then vfs_symlink
    else if format mode == 1
    then vfs_pipe
    else if format mode == 6
    then vfs_blockdevice
    else if format mode == 12
    then vfs_socket
    else vfs_file

unfoldable pub vfs_to_stat : ℕ → ℕ
vfs_to_stat mode =
    if mode == vfs_file
    then 8 * 2 ^ 12
    else if mode == vfs_directory
    then 4 * 2 ^ 12
    else if mode == vfs_chardevice
    then 2 * 2 ^ 12
    else if mode == vfs_blockdevice
    then 6 * 2 ^ 12
    else if mode == vfs_pipe
    then 1 * 2 ^ 12
    else if mode == vfs_symlink
    then 10 * 2 ^ 12
    else mode

-- `a | b`, over the lowest `bits` bits.
unfoldable pub bit_or : (bits : ℕ) → (a b : ℕ) → ℕ
bit_or zero a b = 0
bit_or (suc bits) a b =
    let rest = bit_or bits (a / 2) (b / 2) in (if (a % 2) == 1 then 1 else b % 2) + 2 * rest

-- What `_vfs_stat` fills in of a `struct stat`.
pub record Stat : Type 0 where
  pub st_ino : ℕ
  pub st_mode : ℕ
  pub st_nlink : ℕ
  pub st_uid : ℕ
  pub st_gid : ℕ
  pub st_size : ℕ
  pub st_blksize : ℕ
  pub st_blocks : ℕ

abbrev pub blocks_of : ℕ → Cmd ℕ
blocks_of length = or_fault (roundup length 512)

abbrev pub stat_of : Node → Filesystem → (mode blocks : ℕ) → Stat
stat_of n fs mode blocks = record {
  st_ino = n.id;
  st_mode = bit_or 32 (vfs_to_stat n.type) mode;
  st_nlink = n.nlink;
  st_uid = n.uid;
  st_gid = n.gid;
  st_size = n.filelength;
  st_blksize = fs.block_size;
  st_blocks = blocks;
}

-- `none` is the -1 for the null node.
unfoldable pub _vfs_stat : (node mode : ℕ) → Cmd (Option Stat)
_vfs_stat node mode = if node == null then pure none else (do
  n ← load node
  fs ← get_fs n.fs_info
  blocks ← blocks_of n.filelength
  pure (some (stat_of n fs mode blocks)))

unfoldable pub vfs_fstat : ℤ → Cmd (Option Stat)
vfs_fstat fd = do
  p ← get_fd fd
  elim p [ none ↦ pure none | some i ↦ (do e ← load_fd i; _vfs_stat e.node e.mode) ]

unfoldable pub vfs_stat : (fuel : ℕ) → String → Cmd (Option Stat)
vfs_stat fuel pathname = do
  node ← vfs_find_path fuel pathname
  p ← on_files (get_filedescriptor_from_node node)
  elim p [ none ↦ _vfs_stat node 0 | some i ↦ (do e ← load_fd i; _vfs_stat node e.mode) ]

abbrev pub seek_cur : ℕ
seek_cur = 1

abbrev pub seek_end : ℕ
seek_end = 2

-- The store and the result of `vfs_lseek`.
abbrev pub seek_to : ℕ → ℕ → Cmd (Option ℕ)
seek_to i offset = do set_seek i offset; pure (some offset)

-- `none` is -1.
unfoldable pub vfs_lseek : (fd : ℤ) (offset whence : ℕ) → Cmd (Option ℕ)
vfs_lseek fd offset whence = do
  p ← get_fd fd
  elim p [
    | none ↦ pure none
    | some i ↦
        if whence == seek_cur
        then (do e ← load_fd i; sum ← or_fault (add_int offset e.seek); seek_to i sum)
        else if whence == seek_end
        then (do
          stat ← vfs_fstat fd
          elim stat [
            | none ↦ pure none
            | some st ↦ (do sum ← or_fault (add_int offset st.st_size); seek_to i sum)
          ])
        else seek_to i offset
  ]

-- flags & O_DIRECTORY.
abbrev pub wants_directory : ℕ → Bool
wants_directory flags = ((flags / 2 ^ 21) % 2) == 1

-- `opendir` gives the pointer that `_vfs_opendir` returns for the node.
unfoldable pub vfs_open_fd :
    (fuel : ℕ) (kmalloc : ℕ → Bool) (garbage : ℕ) (opendir : Ptr → Cmd ℕ)
    → (path : String) (flags mode : ℕ) → Cmd ℤ
vfs_open_fd fuel kmalloc garbage opendir path flags mode = do
  node ← vfs_find_path fuel path
  if node == null then pure (negsuc 0) else (do
    fd ← on_files (register_filedescriptor kmalloc garbage node flags mode)
    if wants_directory flags then (do d ← opendir node; _ ← vfs_lseek fd d 0; pure fd) else pure fd)

-- `close` is the function of the node, whose result is dropped.
unfoldable pub vfs_close_fd : (close : Ptr → Cmd (Unit {0})) → ℤ → Cmd ℤ
vfs_close_fd close fd = do
  node ← on_files (get_filedescriptor_node fd)
  if node == null then pure (negsuc 0) else (do
    n ← load node
    if n.close then close node else pure tt
    (λ s. with_files s (close_filedescriptor fd s.files))
    pure (pos 0))
