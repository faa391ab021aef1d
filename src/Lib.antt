-- ===== src/Lib.antt =====
-- Verification library of nku_os: the core data structures and services of the kernel of lab8,
-- with schedule and the round-robin and stride scheduling classes of lab6, the process
-- management of lab5 and the best-fit allocator of lab2. Every module models the C functions
-- that it names at its top, with one definition for each function and helpers for the loops
-- and branches inside them.
--
-- The parts and how they interact. A system call on a descriptor goes through the open-files
-- table (File) to the VFS, which is an interface here (record Vfs). A process that has to wait
-- goes to sleep on the wait queue of a semaphore (Sync) and calls the scheduler (Sched), which
-- runs the next process of the scheduling class; `up` and the timers wake processes again. The
-- page allocator (Mm.FirstFit) and the areas of a user address space (Mm.Vmm) stand on the
-- circular lists of the kernel library (Libs); `kmalloc` (Mm.Slob) takes pages from a page
-- allocator (record PageSource).
--
--   File/Table.antt, File/Calls.antt: lab8/kern/fs/file.h and lab8/kern/fs/file.c. A table
--     is a function from descriptors to `struct file`.
--   File/Valid.antt, File/Claim.antt, File/Keeps.antt: the invariant of the table between
--     calls, for an entry that is held, for one that is claimed, and for all calls.
--   File/Life.antt: fd_array_init of lab8/kern/fs/file.c and files_closeall of
--     lab8/kern/fs/fs.c.
--   Fs/Iobuf.antt, Fs/Bitmap.antt: lab8/kern/fs/iobuf.c and lab8/kern/fs/sfs/bitmap.c.
--     Least is about the block that is taken, Cycle about taking and giving back.
--   Fs/Sfs.antt, Fs/Sfs/Bmap.antt: the block calls of lab8/kern/fs/sfs/sfs_io.c and the
--     block map of lab8/kern/fs/sfs/sfs_inode.c, from sfs_block_inuse to
--     sfs_bmap_truncate_nolock. Space and Wf are the invariant of the free blocks and of
--     the blocks of an inode, Steps and Places what one change does to it, Alloc, Words and
--     Entry how the calls on blocks end; Get (with Mapped and Indirect), Again, Free and
--     Length are about the block map. Blocks has sfs_rblock and sfs_wblock.
--   Fs/Sfs/Trunc.antt: sfs_truncfile and sfs_tryseek of the same file. The loops count down
--     the blocks to go. Resize is about what they leave.
--   Libs/Memory.antt, Libs/Text.antt: lab8/libs/string.c on a memory of bytes.
--   Libs/ListEntry.antt, Libs/ListOrder.antt: lab8/libs/list.h on a heap of links, and the
--     sequence of entries that the links represent. Splice is about the steps anywhere in
--     the list.
--   Libs/SkewHeap.antt: lab8/libs/skew_heap.h, over a comparison function. Tree has the
--     heaps as trees, Shape says which tree the links represent, Merge is about
--     skew_heap_merge and Queue about insertion and removal.
--   Mm/Page.antt, Mm/FirstFit.antt: lab8/kern/mm/memlayout.h and
--     lab8/kern/mm/default_pmm.c. Taken is about the block that is taken, Search about the
--     allocation, Tail about the insertion at the end of the free list.
--   Mm/Slob.antt, Mm/Slob/Kmalloc.antt: lab8/kern/mm/kmalloc.c. Order is about the sizes of
--     the blocks.
--   Mm/Vmm.antt: lab8/kern/mm/vmm.h and lab8/kern/mm/vmm.c. Areas, Insert and UserMem are
--     about the lookup, the insertion and user_mem_check.
--   Mm/Swap.antt: lab8/kern/mm/swap_fifo.c and lab3/kern/mm/swap_clock.c.
--   Mm/BestFit.antt: lab2/kern/mm/best_fit_pmm.c. Least is about the block that is chosen.
--   Process/Pid.antt, Process/Table.antt, Process/Family.antt, Process/Life.antt:
--     lab5/kern/process/proc.c and wakeup_proc of lab5/kern/schedule/sched.c. lab6 repeats
--     these bodies, where alloc_proc and wakeup_proc also serve the scheduling class; in
--     lab8 do_wait, get_pid and the links are the same, do_exit also closes the files, and
--     alloc_proc and do_fork are stubs. A process is named by a number. Pid is get_pid,
--     Family is the links between parents and children, and Life is do_fork, do_exit,
--     do_wait and do_kill. The modules below Family show what the links represent, those
--     below Life what the calls leave.
--   Sched/Proc.antt, Sched/Core.antt, Sched/Timer.antt: lab8/kern/process/proc.h,
--     lab8/kern/schedule/sched.h and lab8/kern/schedule/sched.c, but schedule as in
--     lab6/kern/schedule/sched.c with proc_run of lab6/kern/process/proc.c, for proc_run
--     has no body in lab8. Absolute has the timers by the ticks that each still has to
--     wait, Fire and Tick are about run_timer_list.
--   Sched/RoundRobin.antt: lab6/kern/schedule/default_sched_c.c, an implementation of the
--     interface SchedClass. Turn is about one call of schedule, Fair about many.
--   Sched/Stride.antt: lab6/kern/schedule/default_sched.c, with a pool on the skew heap.
--     Pool is about an enqueue, Next about the process that is picked and taken out, Starve
--     about priority 1.
--   Sync/Wait.antt, Sync/Semaphore.antt: lab8/kern/sync/wait.h, lab8/kern/sync/wait.c and
--     lab8/kern/sync/sem.c.
--
-- State and results. State is passed explicitly. A function that can fail returns a Result: a
-- value, an error code with the state that the source leaves, or `panic` for a failed
-- assertion. Code between local_intr_save and local_intr_restore is one step, and so is code
-- under a spin lock, for there is one hart. A function that calls `schedule` is cut there.
--
-- Fuel. A loop over links, over a string or over an address range takes fuel, and `none` is
-- out of fuel. The length of the sequence and one more is enough for a list, the length and
-- one more for a string, the length in bytes and one more for an address range (each turn goes
-- on behind the end of an area, and so forward by at least a byte), one more than the order
-- for find_order, and one more than the number of entries for a merge of skew heaps. An
-- insertion at the end of the free list takes three turns more than the list is long. A search
-- for a pid takes at most twice MAX_PID rounds, for each round that repeats goes forward, and
-- starts again from 1 at most once. For the search of the SLOB allocator and for the clock the
-- fuel is left open.
--
-- Numbers. Natural numbers stand for addresses and counts. An `int` argument of find_order is
-- read from the low 32 bits of the size. The counters of the page allocator wrap at 2 ^ 32 and
-- the address sums of Mm.Vmm at 2 ^ 64; an address of Libs does not wrap.
--
-- The device of SFS is a disk of blocks of 32-bit words and the list of what its coming calls
-- return. A call that fails leaves the disk as it was. The blocks are at most 2 ^ 20, for the
-- place of a block on the device is a product of 32 bits.
--
-- Not modelled: of SFS the transfers (sfs_io_nolock has no body), the directories, the list of
-- inodes, the mount and the locks, where each modelled function runs under the lock of its
-- caller; the VFS and the devices behind the interface Vfs; page tables, and swap but for the
-- lists of the replacement policies; the memory of a process (copy_mm, load_icode, do_execve)
-- and the set-up of the first processes, whose success or failure do_fork takes as an
-- argument; the switch of stacks in proc_run, of which the change of current is kept;
-- monitors, which are stubs in lab8; traps, drivers, the debugger, printing, user programs and
-- tools. The self tests of the allocators and strtol are left out.
pub mod Base
pub mod File
pub mod Fs
pub mod Libs
pub mod Mm
pub mod Process
pub mod Sched
pub mod Sync
