-- ===== src/Lib.antt =====
-- A model of the core of the ucore teaching kernel of this repository, with its correctness proofs.
-- The labs lab1 to lab8 are successive stages of one kernel; the model follows lab8 where a part
-- exists there, and the earlier lab that completed the part where lab8 only carries its skeleton.
--
-- Common holds the shared names, Boolean tests, list lemmas and `Run`, the outcome of a kernel
-- routine: a value, a failed assertion, or a loop whose fuel has run out.
-- Libs.ListEntry models lab8/libs/list.h at the level of its pointers: `Links` holds the `next` and
-- `prev` field of every entry by address, `list_link` and `list_unlink` are `__list_add` and
-- `__list_del`, and `Chain` says that entries hang together in both directions.
-- Mm.DefaultPmm models lab8/kern/mm/default_pmm.c, the first-fit manager of physical pages, on that
-- list: the free list is the ring of `page_link` entries from address 0, page p's link has the
-- address p + 1. `Holds` relates a state to the list of its free blocks. `unsigned int` fields wrap at
-- 2 ^ 32. The loops over the free list take fuel, and the theorems bound the fuel that is needed by
-- the number of entries the loop passes.
-- Mm.BestFit models lab2/kern/mm/best_fit_pmm.c on the state of Mm.DefaultPmm: only its search for a
-- block is another one, and only that is modelled anew.
-- Mm.Vmm models the list of areas of an address space in lab8/kern/mm/vmm.c: `find_vma` with its cache
-- and `insert_vma_struct` with its checks.
-- Libs.Str models lab8/libs/string.c on a memory of bytes, one recursion per loop; the loops that run to
-- the end of a string take fuel, more rounds than the string has bytes. `strtol` is in Libs.Number.
-- Schedule models lab7/kern/schedule: Schedule has the state (`Kernel`: the processes, the run queue, the
-- timer list, the running process) and `SchedClass`, the table of functions of a scheduling policy;
-- Schedule.Sched is sched.c over any such table, Schedule.Timers its timers, and Schedule.RoundRobin the
-- policy of default_sched_c.c. The run queue and the timer list are lists here; Libs.ListEntry shows
-- what the pointers underneath do. `proc_run` is lab5's, whose switch of page table and stack is left out.
-- Sync models lab7/kern/sync: Sync.Wait is wait.c, the queues of waiting processes on top of the
-- scheduler's state, and Sync.Sem is sem.c. `down` gives the processor away in its middle, so that it is
-- two operations there, `down_begin` and `down_return`, between which other processes run.
-- Fs models lab8/kern/fs: Fs.File is file.c, the open files of a process, over the interface `Inodes` of
-- operations on nodes, and Fs.Iobuf is iobuf.c on the memory of Libs.Str. The array of open files has any
-- number n of items. That other processes change it while an operation sleeps is left out.
-- Fs.Bitmap is lab8/kern/fs/sfs/bitmap.c, the free blocks of a disk, on the bits of a number
-- (Common.Bits). A word is a number below 2 ^ 32; its loops run over the 32 bits and the words that
-- there are. The results of kmalloc are parameters.
-- Mm.Swap is the choice of the page to swap out in lab3/kern/mm: swap_fifo.c, swap_lru.c and swap_clock.c, on
-- the links of Libs.ListEntry. A page is named by the address of its link. The loop of the clock runs on
-- fuel; its theorems say how many turns it takes. The head of the queue is no page, but the loop reads and
-- writes a flag in front of it, which the model has, too.
-- Libs.SkewHeap is lab8/libs/skew_heap.h: the entries with their three pointers, merged, inserted and removed.
-- The comparison is a parameter. skew_heap_merge runs on fuel, one unit for each nested call; as many units
-- as the two heaps have entries, and one more, are enough.
-- Libs.Number is printnum of lab8/libs/printfmt.c and strtol of lab8/libs/string.c, on lists of character codes.
-- printnum runs on fuel, one unit for each digit; one unit more than the number printed is enough.
-- Mm.Vmm.Map is mm_map and Mm.Vmm.UserMem is user_mem_check of lab8/kern/mm/vmm.c; as many rounds as the range
-- has bytes are enough.
-- Process is lab5/kern/process/proc.c (lab8 carries only the skeletons of its functions): Process.Pid is get_pid,
-- Process.Family the pointers between parents, children and siblings, Process.Table the structures, the list of
-- all processes, the hash lists and find_proc, Process.Fork do_fork, Process.Exit do_exit, do_wait and do_kill. A
-- process is the address of its structure. The memory managers that the routines call are a record of functions
-- on a state of their own. do_exit and do_wait are cut where they call schedule: do_wait is a round up to that
-- call, and do_wait_return what follows it. The loops over children take as many rounds as there are
-- children; get_pid walks the list at most twice for each number there is. `IsTable` is the invariant. Libs.Hash
-- is hash32 of lab5/libs/hash.c.
--
-- Interrupt masking (`local_intr_save`) and console output have no effect on the state that is
-- modelled and are left out. Not modelled: the boot and trap assembly and the device drivers, which are hardware;
-- page tables, kmalloc, the inodes and paths below Fs.File, and system calls, whose state is not in the model; the user
-- programs and the check routines, which are tests; and the skeletons that the labs leave to be filled in.
pub mod Common
pub mod Fs
pub mod Libs
pub mod Mm
pub mod Process
pub mod Schedule
pub mod Sync
