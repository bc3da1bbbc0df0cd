-- ===== src/Lib.antt =====
-- Verification of the 404OS kernel, a small kernel for RISC-V with a FAT32 file system.
--
-- Parts of the program, and the file that models each:
-- - mm/page.c (Page): physical pages, handed out in blocks by an array of descriptors.
-- - string/string.c, kernel/ctype.c, include/ctype.h (Text): strings and character classes, which
--   the file system uses for names.
-- - mm/malloc.c (Malloc): objects of ten sizes, carved from pages. Linked has the lists of
--   descriptors, Carve the lists of free objects.
-- - driver/virtio.c, include/disk/virtio.h (Disk): the queue of requests to the disk. Init is the
--   start, with the device as a function from the writes so far to what its registers hold; Taken
--   and Grant the taking of descriptors; Chain, Asked and Transfer a request; Handler the
--   interrupt; Whole and Served the two together.
-- - driver/buffer.c (Buffer): the cache of disk blocks, between the file system and the disk driver.
-- - fs/fat32_inode.c, fs/fat32_disk.c, fs/fat32_stack.c, include/fs/fat32_disk.h (Fat32): the file
--   system. Layout has the macros; Volume the state, with the access to sectors through the cache;
--   Table the chains of clusters and their allocation; Name and Create the names of entries, read
--   and built; Inode the inodes in memory; Data reading and writing; Remove deleting; Dir the
--   walks over directories; Mount the parsers and the root.
-- - timer/time.c (Calendar): the seconds of a date.
-- - kernel/sched, kernel/sys.c, kernel/signal.c, kernel/system_call.c, timer/timer.c (Tasks): the
--   table of tasks and their signals; Queue the five ready queues with `set_Queue`, `schedule` and
--   `sleep`; Exit `do_exit`; Wait `sys_waitpid`; Fork `sys_fork` and `copy_process`; Timer the
--   ticks; Signal the delivery of signals; Start the static data and `Init_sched`.
-- - fs/ops.c, fs/fat32_file.c, fs/fd.c (Files): the table of files, reading and writing through it,
--   the arguments of system calls; Path the elements of paths and the walk along them; New the
--   creation of files, from fs/fat32_inode.c.
-- - print/printf.c (Print): formatted printing.
-- - user/lib/string.c, user/lib/stdio.c (User): strings and printed numbers of the user programs;
--   Words and Length the length of a string by words, Digits the numbers.
-- - Util: arrays as lists, Boolean tests, bit operations, and `Run`, the outcome of kernel code: a
--   value, a panic, an access outside every object, or the end of the fuel.
--
-- A function keeps its name of the source; a loop is a function of its own, recursive on the rounds
-- that are left or on the list that it walks. Pointers into an array are indices; an inode pointer
-- is an index into the table of fifty inodes, which the root's inode follows. State is passed
-- explicitly. Numbers are natural numbers, and `w32`, `u32` and `% 2 ^ 8` are written where the
-- source computes with fixed widths. The counts of references of
-- inodes and buffers have no bound. Uninitialised arrays are arguments. Spin locks are left out, as
-- one hart runs the kernel.
--
-- How the parts interact: the timer's tick, `do_exit`, `sys_waitpid` and `sleep` end in `schedule`,
-- which changes the table of tasks and the queues; that a queue names a task exactly if the task is
-- marked as queued in it is the invariant of Queue.Valid, which all of them need and keep. Files
-- calls the inodes of Fat32, and Fat32 the blocks of Buffer. Malloc takes pages from Page, and Disk
-- the memory of its queue from Malloc; the interrupt of the disk wakes the tasks of Tasks. Calendar,
-- Print and User stand alone.
--
-- Fuel: the walks along a chain of clusters have one more round than the volume has entries, which
-- every chain that does not return to a cluster ends within, as `fat32_next_cluster` panics outside
-- the table; the search of the table has a round for every cluster, and a round passes at least one.
-- The walk along a path has one more round than the path has bytes, and each round takes a
-- character at least; that the loop with this fuel is a walk along the list of the elements is among
-- the results. A `long` has less than twenty digits, the rounds of the loop that counts them. A walk along a chain of descriptors
-- of the disk frees one that is taken in each round, so nine rounds are enough; the handler passes
-- fewer answers than its 16-bit index counts. The lists of malloc.c are walked with a fuel that is
-- an argument, more than the descriptors before the one that is looked for; so are the two loops in
-- which the disk driver waits. The other loops are structural.
--
-- Not modelled: the output to the console, which has no effect on the state; device registers but
-- for those that `Init_virtio` uses; the trap and switch code in assembly, and start-up;
-- `do_execve`, which loads a program through malloc; `add_timer`, whose list ends where a new page
-- happens to hold zeros; the memory for the nodes of the ready queues, which is always found; the
-- page table of mm/pg.c; the dispatch of traps; `memchr`, `strcpy`, `strncpy` and `printf` of the
-- user library; the listing of directories and the path of an inode; programs of user/ that only
-- make system calls, and files generated by CMake.
pub mod Util
pub mod Page
pub mod Malloc
pub mod Text
pub mod User
pub mod Fat32
pub mod Buffer
pub mod Calendar
pub mod Disk
pub mod Tasks
pub mod Print
pub mod Files
