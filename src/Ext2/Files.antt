-- ===== src/Ext2/Files.antt =====
-- Files of kernel/fs/ext2/ext2.c at any byte: its block functions under `fs_read` and `fs_write`.
use yanix.Common.{ℕ, Option}
use yanix.Fs.Device.{Device}
use yanix.Ext2.{ext2_update_node}
use yanix.Ext2.{Filesystem, Disk}

-- `update_node` as `fs_write` calls it.
abbrev pub update_node : (fs : Filesystem) (inode filelength : ℕ) → Disk → Option Disk
update_node fs inode filelength disk = ext2_update_node inode filelength fs disk
