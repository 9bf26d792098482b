-- ===== src/Lib.antt =====
-- The teaching kernel uCore of this repository (lab1 to lab8), modelled from its C sources.
-- Each lab is a copy of the one before with more in it, so what lab8 has is taken from there, and
-- what only an earlier lab has is taken from that one.
--
-- Libs.LinkedList models lab8/libs/list.h on a heap of entries: `Links` holds the two pointers of
-- every entry, addresses are numbers, and every C function is a function of the same name on
-- `Links` (`list_add_between` and `list_del_between` are `__list_add` and `__list_del`).
-- Libs.SkewHeap models lab8/libs/skew_heap.h in the same way, on a store of nodes in which NULL is
-- 0; the recursion of `skew_heap_merge` takes fuel, and more fuel than there are nodes in the two
-- trees is enough. The comparison is an argument. Its child Merge relates the C functions to those on
-- trees of Tree, and Order has what the merge does to heaps.
-- Libs.Strings has the functions of lab8/libs/string.c on a memory of bytes (children: Blocks, Text
-- and Compare); what runs to the end of a string takes fuel, and more than the length is enough.
-- Libs.Hash has lab8/libs/hash.c and rand.c.
-- Pmm.Page has `struct Page` and `free_area_t` of lab8/kern/mm/memlayout.h, and Pmm.FirstFit the
-- functions of lab8/kern/mm/default_pmm.c: a page pointer is the index of the page, the list entry
-- of a page has the page's index as its address, and the list's header has the address `npage`.
-- `none` is a failed `assert`. The loops over the free list take `npage + 1` or `npage + 2` rounds,
-- and a list of blocks that do not overlap has at most `npage` entries. An `unsigned int` is kept
-- below 2 ^ 32 by `%`.
-- Pmm.BestFit is the allocation of lab2/kern/mm/best_fit_pmm.c, on the same state; its loop takes
-- `npage + 1` rounds.
-- Sched.Proc has the scheduler's fields of `struct proc_struct` and `struct run_queue`
-- (lab8/kern/process/proc.h, lab8/kern/schedule/sched.h): a process pointer is a number and NULL is
-- 0, and the `run_link` of a process has its number as address. Sched.Class is `struct
-- sched_class` with what the core scheduler relies on. Sched.RoundRobin is the class of
-- lab8/kern/schedule/default_sched.c (its child Queue proves what Sched.Class asks for), Sched.Fifo
-- and Sched.PrioRoundRobin are those of lab6/kern/schedule/fifo_sched.c and prio_rr_sched.c, over
-- what both share in Sched.Flagged. Sched.Stride and Sched.Sjf are those of
-- lab6/kern/schedule/default_sched_stride.c and sjf_sched.c, over the list and skew heap that both
-- keep in Sched.Pooled; MAX_PROCESS + 2 rounds are enough for the heap. Sched.Core has `schedule`,
-- `wakeup_proc` and the calls of the class in lab8/kern/schedule/sched.c, and `proc_run` of
-- lab8/kern/process/proc.c without the switch of stacks and page tables. A run queue holds at most
-- MAX_PROCESS = 4096 processes, since do_fork makes no more. Sched.Timer has the timers of the same file; their loops take more
-- rounds than there are timers.
-- Vmm is lab8/kern/mm/vmm.c: `Mm` has the areas of one address space, and its children prove what
-- `find_vma` (Find), `insert_vma_struct` (Insert), `mm_map` (Map), `user_mem_check` (Check) and
-- `mm_create` and `mm_destroy` (Lifetime) do on areas in order of their addresses (Areas). More
-- rounds than there are areas are enough. Whether `kmalloc` gives memory is an argument.
-- Process is lab8/kern/process/proc.c: the list of the processes, the table by pid and the family
-- links. Process.Pid has the choice of a pid (over Scan, the loop, and Reach, which shows that some
-- pid is free); a walk of the list for each of the 8192 pids is enough. Process.Buckets has the
-- table (and Unhash what leaves it), Process.Agree relates it to the list, and Process.Admit and
-- Process.Dismiss have what `do_fork` and `do_wait` do to all of them with interrupts off. A pid
-- is a number, since no listed process has a negative one.
-- Fs.File is the table of open files of lab8/kern/fs/file.c: its calls run over an interface of the
-- inode layer (`Vfs`), and what other threads do to the table while a call waits there is an
-- argument, `others`. The table has (4096 - 48) / 56 = 72 entries, and an `off_t` wraps around at 64
-- bits. Fs.Bitmap is lab8/kern/fs/sfs/bitmap.c; a word is the function from the place
-- of a bit to the bit. Fs.Process has the functions of lab8/kern/fs/fs.c that make, copy and close
-- the table of a process.
-- Sync.Wait is lab8/kern/sync/wait.c and Sync.Sem is sem.c, over any scheduling class: a semaphore
-- has the address of its wait queue, and what happens between the sleep and the return of a
-- process that waits is an argument, `others`. The loops of `wakeup_queue` take more rounds than
-- there are waits.
--
-- Not modelled: the page tables, the rest of the life of a process, the inodes, the monitors and
-- the buddy and slub allocators of lab2; what is hardware, assembly or input and output, the
-- vendored tools, and the checks that the kernel runs on itself (`default_check` and the like). Interrupts are off in
-- the functions of the scheduler, the allocator and the list of processes that are modelled
-- (`local_intr_save`), so each is one step.
pub mod Prelude
pub mod Libs
pub mod Pmm
pub mod Sched
pub mod Vmm
pub mod Process
pub mod Fs
pub mod Sync
mod Tests
