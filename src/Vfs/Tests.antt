-- ===== src/Vfs/Tests.antt =====
-- Runs of kernel/fs/vfs/vfs.c on a small file system.
use yanix.Common.{◌≡◌, refl, inr, true, some, [], ◌∷◌, arith}
use yanix.Common.Int.{pos, negsuc}
use yanix.Vfs.{Node, State}
use yanix.Vfs.Lookup.{same_name, vfs_find_path}
use yanix.Vfs.Lookup.Refines.{Represents, vfs_find_path-lookup}
use yanix.Vfs.Link.{vfs_link_node_vfs}
use yanix.Vfs.Link.Implements.{Also, linked}
use yanix.Vfs.Link.RoundTrip.{vfs_link_node_vfs-Represents, vfs_find_path-link}
use yanix.Fd.Vector.{FileDescriptor, Vector}
use yanix.Vfs.{Filesystem, write}
use yanix.Vfs.File.{Transfer}
use yanix.Vfs.File.Stat.{vfs_lseek}
use yanix.Vfs.File.Seek.{Opened, at_offset, sought, vfs_lseek-Sought}
use yanix.Vfs.File.Transfer.{seek_read_tell, vfs_read_fd-continues}
use yanix.Vfs.Samples.{
  Live, a_node, etc, etc-Names, graph, new-Linkable, new_path, nodes, small, small-Represents,
}

vfs_find_path-lookup_example :
    vfs_find_path 4 (47 ∷ 101 ∷ 116 ∷ 99 ∷ 47 ∷ 97 ∷ []) small ≡ some (40, small)
unfolding same_name
vfs_find_path-lookup_example =
    vfs_find_path-lookup 4 Live graph small small-Represents etc ((97 ∷ []) ∷ [])
      ((omega arith, (omega arith, (omega arith, tt))), ((omega arith, tt), tt))
      (λ e. ground (arith, e))

vfs_link_node_vfs-Represents_example :
    (s' : State) × (vfs_link_node_vfs 4 new_path 0 50 small ≡ some (pos 0, s'))
    × Represents 4 (Also Live 50) (linked graph 20 (98 ∷ []) 50) s'
    × (s'.root ≡ 10)
unfolding same_name
vfs_link_node_vfs-Represents_example =
    vfs_link_node_vfs-Represents 4 Live graph small etc [] 98 [] 0 20 (97 ∷ []) 40 [] 50
      small-Represents new-Linkable etc-Names (λ e. ground (arith, e)) (omega arith, tt) refl
      (omega arith)

vfs_find_path-link_example :
    (s' : State) × (vfs_link_node_vfs 4 new_path 0 50 small ≡ some (pos 0, s'))
    × (vfs_find_path 4 new_path s' ≡ some (50, s'))
unfolding same_name
vfs_find_path-link_example =
    vfs_find_path-link 4 Live graph small etc [] 98 [] 0 20 (97 ∷ []) 40 [] 50 small-Represents
      new-Linkable etc-Names (λ e. ground (arith, e)) (omega arith, tt) refl (omega arith) refl

abbrev disk : Filesystem
disk = record { block_size = 1024; block_read = true; block_write = true }

abbrev file : Node
file = record (a_node (97 ∷ []) 0 0) { fs_info = some disk; filelength = 100 }

abbrev on_file : FileDescriptor
on_file = record { node = 40; mode = 0; flags = 0; seek = 7; lock_index = 0 }

abbrev on_new : FileDescriptor
on_new = record on_file { node = 50 }

abbrev table : Vector
table = record { buffer = on_file ∷ on_new ∷ []; size = 2; maxsize = 2 }

-- Descriptor 0 is open on a file of the disk, and descriptor 1 on a node without a file system.
abbrev running : State
running = record small {
  node = write nodes 40 file;
  files = record { current = some table; errno = 0 };
}

-- A device that reads five bytes, and one that fails.
abbrev five : Transfer
five p offset amount flags s = some (pos 5, s)

abbrev failing : Transfer
failing p offset amount flags s = some (negsuc 0, s)

on_file-Opened : Opened 0 on_file table running
on_file-Opened = record { table = refl; within = omega arith; entry = refl }

vfs_lseek-Sought_example :
    vfs_lseek (pos 0) 20 2 running ≡ some (some 120, sought running table 0 on_file 120)
vfs_lseek-Sought_example =
    vfs_lseek-Sought 0 on_file table running file disk 20 2 on_file-Opened (omega arith) refl refl

vfs_read_fd-continues_example :
    (s2 : State) × (seek_read_tell failing five 0 30 10 running ≡ some (some 35, s2))
vfs_read_fd-continues_example =
    vfs_read_fd-continues failing five five 0 on_file table (at_offset table 0 on_file 30) running
      (sought running table 0 on_file 30) file 30 10 5 on_file-Opened (omega arith) refl
      (inr (refl, disk, refl, refl, refl)) refl
      (record { table = refl; within = omega arith; entry = refl }) (omega arith)
