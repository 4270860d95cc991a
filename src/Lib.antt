-- ===== src/Lib.antt =====
-- kernel-travel: a kernel for LoongArch, modelled for its core data structures and the subsystems that
-- stand on them.
--
-- The parts and how they interact. The page pool (mm/memory.c) takes its pages from a bitmap
-- (lib/kernel/bitmap.c). The areas of a process (mm/mmap.c) say where new mappings may go. Threads wait in
-- intrusive lists (lib/kernel/list.c). A pipe is a ring of bytes (drivers/ioqueue.c) in a slot of the table
-- of open files (fs/fd.c), which the descriptors of a process name. FAT32 files are chains of clusters
-- (fs/fat32/cluster.c), which an open file keeps in a table (fs/fat32/filepnt.c); sectors come from the buffer
-- cache (fs/buf.c). The scheduler (thread/thread.c) and the clock (drivers/timer.c) say which thread runs;
-- semaphores and locks (thread/sync.c) and the end of processes (userprog/wait.c) block and wake threads.
-- At start-up the regions of mm/memblock.c give the pages. The strings of lib/string.c serve all of them.
--
-- Files:
--   Base: shared names. Base.Effects gives what a run comes to: `ok`, `panic` (a failed ASSERT),
--     `fault` (an access that C leaves undefined), `spin` (rounds used up). Base.Lists has C arrays as lists,
--     Base.Int signed results.
--   Bitmap: `struct bitmap`, bitmap_init, bit_scan_test, bit_scan (with its two loops skip_full and scan_run)
--     and bitmap_set. Bitmap.Bits has the bits of a byte, Bitmap.Valid well-formedness, Bitmap.Runs
--     runs of free bits, Bitmap.Scan the search, Bitmap.Init the start.
--   Pages: phy_pool and the bytes of memory; get_page, free_page, get_pages, free_pages, get_kernel_pge,
--     get_kernel_pages, free_kernel_pge. Pages.Alloc is about single pages, Pages.Range about runs.
--   LinkedList: the prev and next pointers of all nodes as a store, a list as its two sentinels, and all
--     functions of list.c. LinkedList.Chain says when a list holds elements; LinkedList.Update
--     and LinkedList.Walk are about the functions that change and that walk a list.
--   Strings: the functions of string.c on buffers of bytes. Strings.Insert has strins, wstrnins
--     and strn2wstr. Strings.Text and Strings.Compare.
--   Pipe: the ring of ioqueue.c, pipe_check_read, pipe_check_write, and pipe_read and pipe_write of fs/fd.c. A call that
--     sleeps returns the state in which it sleeps. Pipe.Ring and Pipe.Checks.
--   Cluster: clusterSec, fatRead, fatWrite, clusterZero, clusterAlloc, clusterFree, fileBlockNo,
--     countClusters, checkSum on the bytes of the sectors. Cluster.Table (places of entries), Cluster.Write,
--     Cluster.Zero, Cluster.Alloc, Cluster.Chain. Cluster.Data has clusterRead and clusterWrite,
--     Cluster.RoundTrip their round trip.
--   Files: the table of open files and the descriptors of the running process; the functions of fs/fd.c.
--     Files.Calls has sys_close, sys_dup, sys_dup2, sys_pipe of fs/syscall_fs.c and
--     update_inode_open_cnts of userprog/fork.c. Files.Seek has sys_lseek.
--     Files.Slots, Files.Close and Files.Open.
--   Buddy: the buddy allocator of mm/memory.c with its part of include/xkernel/memory.h. A page is its page
--     frame number; struct zone and the pages' private and index are one record. Buddy.Cover counts the free
--     blocks that a page is in, Buddy.Valid has the invariant, Buddy.Change what an operation on one list
--     does, Buddy.Alloc and Buddy.Take are about allocation, Buddy.Free and Buddy.RoundTrip about freeing.
--   PageTable: the page tables of mm/memory.c. Their pages come from get_page of Pages and are read as words
--     of eight bytes (PageTable.Words); PageTable.Walk is about one level, PageTable.Mapping about a mapped
--     address, PageTable.Add about mapping one.
--   Mmap: find_vma, find_vma_prepare and get_unmapped_area on a search tree and the list of areas.
--     Mmap.Tree, Mmap.Gap and Mmap.Place.
--   Signals: the signal sets of include/xkernel/sigset.h and the functions of kernel/signal.c but
--     init_handlers; the frames on the user stack go by their addresses. Signals.Deliver.
--   Paths: path_parse and path_depth_cnt of fs/path.c. Paths.Depth.
--   Softirq: kernel/softirq.c; what an action does to the state is a parameter. Softirq.Pass.
--   Threads: the threads, the ready queue and the switches of thread/thread.c, and intr_timer_handler of
--     drivers/timer.c. A thread is the address of its task_struct, a list of tags the sequence of its threads.
--     What stands behind a switch in the C text runs when the thread is on again. Threads.Invariant says what
--     holds between operations, Threads.Switch is about schedule, Threads.Keep about the operations,
--     Threads.Frame about which threads they stop and wake, Threads.Fair about the clock.
--   Timer: the wheel of timers of drivers/timer.c. Its vectors are numbered through; Timer.Place is about adding,
--     Timer.Reuse about deleting a timer, and Timer.Run has run_timers, with the timers' functions a parameter.
--   Locks: sema_down in rounds of its loop, sema_up, lock_acquire and lock_release. Locks.System is a step
--     relation: the running thread, the clock and the interrupts in any order, each part of a function that
--     can be interrupted a step of its own. Locks.Exclusion has the invariant, its children Enter, Leave and
--     Runs the steps and the runs.
--   Processes: sys_exit and the rounds of sys_wait, with thread_exit, pid2thread and release_pid, on Threads
--     and Bitmap. Processes.Wake and Processes.Exit.
--   Buffers: fs/buf.c, the buffers by number, the lists of the groups, and the disk. Buffers.View says what
--     the users of the cache see; Buffers.Change, Buffers.Read and Buffers.Sync.
--   FatFile: fs/fat32/filepnt.c and Fatfile_read. FatFile.Pointer (the table as an array), FatFile.Init.
--   Boot: the table of regions of mm/memblock.c and __free_memory_core. Boot.Regions and Boot.Tiles.
--   The module Tests of most parts has concrete inputs.
--
-- Function names are those of the C code, in snake case. Integers are natural numbers, with the wrap-around
-- of the C type written as u32 and u64.
--
-- Bounds and fuel. The loops of bit_scan get one round more than the bitmap has bytes or bits, that of
-- clusterZero a round for each byte of a cluster: each round moves on by one or more. The walks of a list,
-- countClusters and check_signals take the number of rounds as an argument, and what is said of them holds for every
-- number from the length of the list or chain on, for check_signals from one on. All other loops are recursion on a list or on the number of rounds
-- that the loop condition leaves.
--
-- cascade_timers and run_timers take a number of rounds for each of their loops.
--
-- The loop of free_one_page gets a round for each order up to MAX_PAGE_ORDER, that of __rmqueue_smallest one
-- for each list; what is said of __rmqueue and its callers holds for every number of rounds from one on.
--
-- filepnt_init and clus_sequence_free take a number of rounds, enough from the length of the chain on;
-- __free_memory_core gets a round for each page, as each block has a page at least.
--
-- Not modelled: ext4 (a port of lwext4) and the Linux library files, which are other projects' code; device
-- drivers, traps and start-up, which are input and output. The sizes of zones and the time accounting are
-- sums over tables that the start-up fills. fork and exec, directory entries and the writing of files, and the
-- rest of fs/path.c, mounts, poll and ioctl stand on the tree of directory entries, whose set-up is not
-- modelled. Cluster and FatFile stand on a disk of sectors without the buffer cache; of the page pool FatFile has the number of free pages;
-- Processes leaves out what sys_exit gives back; Boot ends at the arguments of __free_pages_core. In Files and Pipe locks are not
-- shown.
pub mod Base
pub mod Bitmap
pub mod Pages
pub mod Buddy
pub mod PageTable
pub mod LinkedList
pub mod Strings
pub mod Pipe
pub mod Boot
pub mod Cluster
pub mod FatFile
pub mod Buffers
pub mod Files
pub mod Mmap
pub mod Signals
pub mod Paths
pub mod Softirq
pub mod Threads
pub mod Timer
pub mod Processes
pub mod Locks
