-- ===== src/Lib.antt =====
-- Verification library for yanix, an i386 kernel in C: the data structures, allocators, scheduler
-- and files of the kernel.
--
-- What is modelled, by file:
--   Fd/Vector, Fd/Table   kernel/yanix/ds/fd_vector.c (`vector_t`) and kernel/fs/filedescriptor.c: the open
--                         files of a task. The table keeps the vector of the current task and `errno`;
--                         `register`, `close`, `dup`, `dup2` and the close-on-exec pass of an exec call the
--                         operations of the vector, as in the C.
--   Sync                  kernel/yanix/atomic.c with kernel/arch/i386/cpu/atomic.asm: spinlocks.
--   Ring                  kernel/yanix/ds/ringbuffer.c: the byte buffer, which takes a spinlock around
--                         each read and write. `Read`, `Write` and `Transfer` are on what is done under it.
--   Pipe                  kernel/fs/vfs/pipe.c: pipes, each over a ring buffer.
--   Queue                 kernel/yanix/ds/queue.c: the queue of pending connections.
--   Paging                kernel/mm/paging.c: the bitset of physical frames and the pages bound to them.
--   Space                 kernel/mm/paging.c: page tables and directories. `Identity` is on the mapping of a
--                         range to itself, `Ends` on whether a loop over a range ends,
--                         `Fork` on the copies of pages and directories, and `Fault`
--                         on the handler of kernel/mm/fault.c. The blocks of `kmalloc_base` are a list
--                         in the state.
--   Mm/Blocks             kernel/mm/linkedlist.c: the block allocator, over an explicit memory in which the
--                         nodes of the used and the free list point to each other.
--   Mm/Heap               kernel/mm/heap.c: the watermark allocator of the boot, and the heaps, which call the
--                         block allocator.
--   Proc/Sched            kernel/proc/sched.c: the lists of tasks, linked by pointers, and the calls that
--                         move a task from one to another.
--   Vfs                   kernel/fs/vfs/vfs.c: the tree of nodes, paths, and files by descriptor, over the
--                         table of `Fd`. `Lookup` finds a node by its path, `Link` puts one into a
--                         directory, and `File` reads, writes and seeks.
--   Fs                    kernel/fs/fs.c: reads and writes at any offset, cut into whole blocks.
--   Ext2                  kernel/fs/ext2/ext2.c: inodes, the blocks of files and the bitmaps, over a disk of
--                         bytes. `Inodes` and `Update` are on where inodes stand, `Blocks` and `Sparse`
--                         on the tree of pointers, `Stored` on a file with its inode, `Node` on
--                         `ext2_update_node` of it, with reads and writes in `Blocks/Read` and
--                         `Blocks/Write`, and `Alloc` on the bitmaps. `Files` puts these block
--                         functions under the `fs_read` and `fs_write` of `Fs`.
--   Elf                   kernel/yanix/execute/elf.c: the loading of a program from its file.
--   Sock                  kernel/net/socket/unix.c: connections between tasks, over `Pipe` and `Queue`.
--                         `Handshake` is on how one is made.
--   Libk                  kernel/libk: `Memory` and `Strings` for string/string.c over a flat memory of bytes,
--                         `Numbers` for stdlib/stdlib.c and `int_to_string`, `Math` for the
--                         rounding in math/math.c that the descriptor vector uses.
--   Common                shared names, lists, `int`s and code that may fault.
--
-- Conventions. An operation keeps its C name, without the prefix that its module stands for. It
-- takes the state and gives back the new one. `none` is undefined behaviour: an access outside a
-- block, a division by zero, a signed overflow, an invalid instruction, a wait that does not end.
-- Error returns and `errno` are values. `unsigned` arithmetic has its wrap-around written out. One
-- signed product is taken modulo 2 ^ 32 and not as a fault, `index * 0x1000` of a frame: see
-- `frame_address` of Paging. The release of a spinlock is an invalid instruction, so that
-- `ringbuffer_read` and `ringbuffer_write`, and what calls them, fault. The kernel heap of the
-- callers is a parameter `kmalloc` that says which requests it grants; `HeapLimit`, that no block
-- is larger than the whole heap, is what is assumed of it; `Space` and `Sock` have the blocks that
-- it hands out next in their state. Calls run one at a time: no interrupt or other thread comes
-- between the steps of a call, and a pipe that would wait for another process says so in its
-- result. A socket call that waits for the other end is cut in two there.
--
-- Fuel. The wait of `spinlock_lock` gets two rounds and that of `queue_lock` one, which the theorems
-- below show to be enough. The walks of the block allocator get fuel from the caller, and a walk over
-- `n` nodes needs more than `n`. The walks over strings get the number of bytes of memory, past which
-- they fault.
--
-- Not modelled: the creation and the signals of processes, directories
-- of ext2, the terminal, sockets by descriptor, execve and system calls, which build on the parts
-- above; drivers and the boot loader, which work on ports and registers.
pub mod Common
pub mod Libk
pub mod Fd
pub mod Sync
pub mod Ring
pub mod Queue
pub mod Pipe
pub mod Paging
pub mod Space
pub mod Mm
pub mod Proc
pub mod Vfs
pub mod Fs
pub mod Ext2
pub mod Elf
pub mod Sock
