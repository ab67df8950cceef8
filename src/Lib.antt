-- ===== src/Lib.antt =====
-- HardCore is a teaching kernel for 32-bit x86, derived from ucore. This library models the parts of
-- it that carry its own logic: lists, physical memory, the areas of an address space, page
-- replacement, timers and scheduling, waiting and semaphores, processes, strings, and the table of open files.
-- A failed `assert` of the source is the result `none` of a run, an error number that the
-- source returns negated is returned as it is, and machine words are native numbers with their
-- wrap-around written out.
--
-- Libs.Ring (libs/list.h): `struct list_entry` is a pair of functions from addresses to addresses, and
--   each inline function is one definition of its own name. Libs.Ring.Links says when a store
--   holds a ring; Insert and Delete are about list_add and list_del and their variants. The
--   other modules take such rings as lists, which those theorems allow.
-- Libs.Strings (libs/string.c, printnum of libs/printfmt.c): a string that is only read is the rest of
--   the block that the pointer points into; blocks that are written are in a memory from addresses
--   to bytes. Compare, Move, Number and Printed are about strlen and strcmp, memmove, strtol, and
--   printnum. The fuel of printnum is the number and one more, which each call divides.
-- Mm.Pmm (kern/mm/default_pmm.c): `Area` is free_area_t with the table of pages, `alloc_pages` the three
--   allocators, which differ in the choice of a block only. Valid, View and Blocks give the free
--   pages as a set; Merge, Loops and Free are about freeing; Take, Relink and Alloc about allocation;
--   Policy about the choice; Init about default_init_memmap.
-- Mm.Vmm (kern/mm/vmm.c): `Mm` is mm_struct with its areas in the order of mmap_list and the address
--   in mmap_cache. Find is about find_vma, Walk and Insert about insert_vma_struct, Map about
--   mm_map, Access about user_mem_check, Unmap has mm_unmap and mm_brk, Dup about dup_mmap.
--   The fuel of the loop of user_mem_check is the length of the range and one more, and each
--   round moves on by at least one address. kmalloc and the page tables are an interface (`Lower`).
-- Mm.SwapFifo (kern/mm/swap_fifo.c): the swappable pages from the head of the list on. Victim is about the
--   clocks, Order about first-in first-out. The address of a page's entry, which get_pte finds, is a
--   parameter.
-- Schedule.Timers, Schedule.Sched (kern/schedule/sched.c): the timers in list order, each with its ticks
--   after the one in front; the processes by address, with the current and the idle one.
--   `SchedClass` is struct sched_class, and `ClassLaws` what the scheduler asks of a class on its
--   valid queues; Schedule.Cfs.Laws has the laws of cfs_sched_class. The stride class is no instance:
--   the stride of a process that sleeps may come to lie further behind than its words compare. Timers has
--   Deadlines, Add and Del; Sched has Balance, about waking and choosing, and Tick and Clock,
--   about run_timer_list. A call
--   is one step, since the source masks interrupts. proc_run is seen as the change of `current`.
-- Schedule.Sleep (kern/process/proc.c, `do_sleep` up to its `schedule`): runs of the system as lists
--   of events; Due is about the ticks a process has to wait, Awake about who is woken, Runs about whole
--   runs. The del_timer behind `schedule` is no event, as the tick has taken the timer out.
-- Schedule.Trees (kern/schedule/stride_rb_tree.c, kern/schedule/cfs_rb_tree.c), Schedule.Stride
--   (kern/schedule/default_sched.c), Schedule.Cfs (kern/schedule/cfs_sched.c): the two scheduling classes
--   on their trees. What libs/rbtree.c does is a parameter (`RbTree`) that keeps the order of
--   the nodes. Order is about the comparisons, Sorted about insertion, Spine about the search.
-- Sync (kern/sync/wait.c, kern/sync/sem.c): wait queues and semaphores, whose calls are the steps of an
--   interleaving of processes.
-- Fs.File (kern/fs/file.c): `Sys` is the table of the current process with the state of the layers below,
--   `Vfs` the calls of the vfs layer. File has the functions on entries, Calls the system's
--   calls; Entry and Table give the invariant, Held is about read, write and seek, Opening about
--   file_open, Closing about file_close, file_dup and bad descriptors.
-- Process (kern/process/proc.c): `Kernel` is the processes by address, in the scheduler's record, their
--   control blocks and their family links, with proc_list, hash_list and the counters. Pids is
--   get_pid, whose search has the fuel of twice MAX_PID rounds and passes MAX_PID at most once; Family
--   the links of parents and siblings; Table the list and the hash table, with Libs.Hash
--   (libs/hash.c); Fork, Exit and Wait the calls. do_wait is two steps around `schedule`. What the
--   calls take from the heap, the page allocator, address spaces and tables of files is an
--   interface (`Resources`), whose laws count what is in use; lock_mm is taken when nobody holds it. The loops over children and the walk
--   to the main thread have the number of processes as fuel; a process has fewer children.
-- Fs.Bitmap (kern/fs/sfs/bitmap.c): the map of the free blocks of a disk as words; Bits has the bits of a
--   word, Alloc is about bitmap_alloc.
-- Prelude: tests, lists with native indices, membership, and the monad of runs that may fail.
--
-- Loops over lists are structural recursion. Not modelled: what is input and output or assembly (boot,
-- drivers, traps, debugging), the self checks, the balancing of red-black trees, page tables and the swap device, the kernel heap, do_clone, do_execve and the loading of programs,
-- the vfs layer and the file systems below it, and user programs.
pub mod Prelude
pub mod Libs
pub mod Mm
pub mod Fs
pub mod Schedule
pub mod Sync
pub mod Process
