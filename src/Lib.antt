-- ===== src/Lib.antt =====
-- Pintos, project 3: the kernel of 20161211_pintos_prj3/src. The scheduler is the one of project 3, built
-- without user programs; userprog/ is modelled over the file system.
--
-- Parts, and the files that model them (paths from 20161211_pintos_prj3/src):
--   * threads/fixed_point.h, the 17.14 arithmetic of the advanced scheduler: Fixed. The formulas of
--     thread.c for priorities, load average and recent CPU use: Fixed/Priority.
--   * lib/kernel/list.c twice. Links has the pointer operations over a store of `prev` and `next`
--     links, where a failed ASSERT is `none`. ListAlgo has the algorithms (sorting, ordered
--     insertion, duplicates, extremes) over the sequence of the elements.
--   * threads/thread.c and devices/timer.c, the scheduler: Sched has the state (`Kernel`: the table of
--     threads, the ready, sleep and all lists, the statistics and options), and its children the
--     operations: Sched/Switch (block, unblock, yield, exit, schedule), Sched/Create, Sched/Sleep
--     (thread_sleep, thread_alarm), Sched/Mlfqs (aging and the advanced scheduler), Sched/Timer
--     (thread_tick, timer_interrupt, and intr_handler of threads/interrupt.c).
--   * threads/synch.c: Synch, semaphores, locks and the signals of condition variables, which block
--     and unblock threads by the operations of Sched. Synch/Mutex has threads that share a lock as a
--     system of steps, in which the rest of the kernel may run in between.
--   * devices/intq.c: Intq, the ring of bytes between an interrupt handler and a thread.
--   * filesys/inode.c: Inode, reading and writing of files a sector at a time; Inode/RoundTrip, what is
--     read after a write. inode_create is in Fs.
--   * filesys/file.c, with the table of open inodes of filesys/inode.c: File. Files that share an inode
--     hold its address; the counts of the inode are in one table.
--   * lib/kernel/bitmap.c: Bitmap, with its bits as 32-bit elements; Bitmap/View reads them one by one.
--   * lib/string.c: Strings, searching and splitting; Directory has its strcmp and strlcpy.
--   * lib/kernel/hash.c: Hash, tables whose buckets are lists; Hash/Buckets says what they hold.
--   * threads/palloc.c: Palloc, two pools of pages over bitmaps.
--   * filesys/free-map.c: FreeMap, the sectors in use as a bitmap that is also kept in a file.
--   * filesys/directory.c: Directory, entries as bytes of a file. Directory/Slots reads the file as
--     numbered slots, Directory/Store writes one slot, Directory/Add and Directory/Outcome are about
--     dir_add.
--   * Fs is the state of the file system (open inodes, free map with the device) and the operations of
--     inode.c and file.c on all of it; filesys/filesys.c with the rest of directory.c and free-map.c is
--     Filesys.
--   * userprog/syscall.c: Syscall, with the state of Process (the part of `struct thread` for programs, the
--     files by address, the file system, the memory of the program, the console). Syscall/Transfer has
--     read and write, Syscall/Handler the dispatch over the numbers of lib/syscall-nr.h. Syscall/Table,
--     Syscall/Slots, Syscall/Install, Syscall/Open and Syscall/Close are about the table of open files, and
--     Filesys/Openers, Filesys/Open and Filesys/Found about the counts of the inodes behind it, and
--     Syscall/Arguments about the words that the handler checks.
--   * userprog/process.c: Process/Command and Process/Argv split the command line, Process/Stack lays
--     out the arguments, Process/Segment checks a segment of an executable, Process/Wait waits for a
--     child.
--
-- How it is modelled. A thread is the address of its page, a nonzero number; NULL is 0. An operation
-- takes the state and returns it in an `Option`: `none` is a failed ASSERT (a kernel panic) or a
-- division by zero. An operation that switches threads ends, in the model, where the next thread is
-- running: what the thread that left does when it runs again (restoring the interrupt level, the
-- next test of a loop) belongs to a later step. A loop that waits is therefore one round, with a
-- result that tells whether it returned or waits. An `int` is a signed number that is wrapped to
-- 32 bits after each operation of fixed_point.h, and `/` rounds toward zero as in C.
--
-- Fuel: `list_sort` passes, merges, the copy loops of inode.c and the searches of directory.c run on
-- fuel. Each pass of `list_sort` leaves fewer runs, each merge takes an element, each round of a copy
-- loop moves a byte and each round of a search passes an entry of 20 bytes, so the length of the list,
-- of the buffer or of the file is enough; the theorems are about the functions with that fuel. The loop
-- of `rehash` that chooses the number of buckets makes that number smaller in each round. A round of
-- `set_argv` takes a word off the line, so its length is enough. A string in user memory ends with the
-- memory at the latest.
--
-- The counts of an inode are compared with a list that has a file for each of its openers; an opener that
-- is no open file of a process (a directory, the file of the free map, a file that was leaked) is listed
-- too, so that the count is exactly the number of openers.
--
-- The semaphores of syscall.c, `mutex` and `fd_wait`, guard sections that the model takes as one step.
--
-- Arguments of the model: the hash and the order of the elements of a hash table, what `malloc`,
-- `calloc` and `palloc_get_page` return to their callers, what new memory holds, `free_map_release` in
-- File, what the sector of an inode holds on disk in File, the keys that the user types, and, in
-- Syscall/Handler, process_execute and process_wait of userprog/process.c.
--
-- Not modelled: the context switch itself, stacks and page tables (a page is an argument of
-- `thread_create`), names and statistics output, device ports, the calibration of delays, `malloc` of the
-- bounce buffer in inode.c (taken to succeed), the heap of threads/malloc.c, the iterators of hash.c, the
-- loops of load and load_segment, process_execute, faults of user memory, the commands of
-- filesys/fsutil.c, and the earlier copies of the kernel in 20161211_pintos_prj0_2, prj1 and prj2. The bitmap of a pool is
-- kept apart from the bytes of memory, and the number of elements of a bitmap is taken without the wrap of
-- its rounding near 2 ^ 32 bits.
pub mod Base
pub mod ListAlgo
pub mod Fixed
pub mod Sched
pub mod Synch
pub mod Intq
pub mod Links
pub mod Inode
pub mod File
pub mod Bitmap
pub mod Fs
pub mod Filesys
pub mod FreeMap
pub mod Strings
pub mod Hash
pub mod Palloc
pub mod Directory
pub mod Process
pub mod Syscall
mod Tests
