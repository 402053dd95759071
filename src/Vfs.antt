-- ===== src/Vfs.antt =====
-- kernel/fs/vfs/vfs.c: the nodes of the virtual file system, linked by pointers in memory, and the
-- calls that find, link, open, read and seek them. A command faults (`none`) where it goes through
-- a null or dangling pointer, or walks for longer than its fuel. A string is the list of its bytes
-- before the zero.
pub mod Lookup
pub mod Link
pub mod File
pub mod Samples
pub mod Tests
use yanix.Common.{ℕ, zero, suc, Bool, true, false, Option, none, some, List, ◌==◌, if◌then◌else◌}
use yanix.Fd.Table.{Files}

abbrev pub Ptr : Type 0
Ptr = ℕ

abbrev pub null : Ptr
null = 0

abbrev pub String : Type 0
String = List ℕ

-- What the calls use of a `filesystem_t`: whether its function pointers are set.
pub record Filesystem : Type 0 where
  pub block_size : ℕ
  pub block_read : Bool
  pub block_write : Bool

-- What the calls use of a `vfs_node_t`; a function pointer is whether it is set.
pub record Node : Type 0 where
  pub name : String
  pub type : ℕ
  pub uid : ℕ
  pub gid : ℕ
  pub id : ℕ
  pub filelength : ℕ
  pub fs_info : Option Filesystem
  pub nlink : ℕ
  pub read : Bool
  pub write : Bool
  pub close : Bool
  pub nextnode : Ptr
  pub dirlist : Ptr
  pub parent : Ptr

-- The nodes in memory, `g_vfs_root`, the working directory of the current task, and its descriptors
-- with `errno`.
pub record State : Type 0 where
  pub node : Ptr → Option Node
  pub root : Ptr
  pub cwd : String
  pub files : Files

abbrev pub Cmd : Type 0 → Type 0
Cmd A = State → Option (A × State)

abbrev pub pure : {A : Type 0} → A → Cmd A
pure a s = some (a, s)

abbrev pub and_then : {A B : Type 0} → Option (A × State) → (A → Cmd B) → Option (B × State)
and_then none f = none
and_then (some (a, s)) f = f a s

infixl 5 ◌>>=◌ ◌>>◌
abbrev pub ◌>>=◌ : {A B : Type 0} → Cmd A → (A → Cmd B) → Cmd B
m >>= f = λ s. and_then (m s) f

abbrev pub ◌>>◌ : {B : Type 0} → Cmd (Unit {0}) → Cmd B → Cmd B
m >> k = m >>= λ _. k

abbrev pub fault : {A : Type 0} → Cmd A
fault s = none

-- `*p`.
pub load : Ptr → Cmd Node
load p s = if p == null then none else elim (s.node p) [ none ↦ none | some n ↦ some (n, s) ]

abbrev pub write : (Ptr → Option Node) → Ptr → Node → Ptr → Option Node
write node p n q = if q == p then some n else node q

-- `*p = f(*p)`.
pub update : Ptr → (Node → Node) → Cmd (Unit {0})
update p f = do n ← load p; (λ s. some (tt, record s { node = write s.node p (f n) }))

abbrev pub with_errno : ℕ → State → State
with_errno e s = record s { files = record s.files { errno = e } }

abbrev pub set_errno : ℕ → Cmd (Unit {0})
set_errno e s = some (tt, with_errno e s)
