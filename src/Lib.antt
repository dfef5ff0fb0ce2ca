-- ===== src/Lib.antt =====
-- Course projects of CS 537, Fall 2016. They are separate programs, and each is a part of its own:
--
--   Mlfq    projects/p2/p2b/xv6/xv6/kernel/proc.c and trap.c: the process table of an xv6 kernel and
--           its scheduler with four levels of feedback queues.
--   Shm     projects/p3/p3b/xv6/kernel: regions of memory that processes share by key (vm.c), what
--           fork, exec, wait and sbrk do to them (proc.c, exec.c), and the checks of the arguments of
--           system calls (syscall.c, sysproc.c).
--   Vm      projects/p3/p3b/xv6/kernel/kalloc.c and vm.c: the pages of memory, page tables and the user
--           part of an address space.
--   Server  projects/p4/p4a/server.c and request.c: a web server, a master and a pool of workers with
--           a circular buffer between them, and the answer to a request.
--   Http    projects/p4/p4a/request.c, client.c and rio_readlineb of cs537.c: the bytes that the server and
--           its test client send to each other.
--   Mysh    projects/p2/p2a/mysh.c: a shell with numbered background jobs.
--   Stats   projects/p3/p3a/stats.c and stats_server.c: clients claim buffers of a shared page.
--   Sort    projects/p1/p1a: varsort.c, varsort_onemalloc.c and varsort_2darray.c sort a file of records,
--           genvar.c writes a random one, and dumpvar.c prints one.
--   Count   projects/p1/p1b/xv6/kernel/syscall.c: how many system calls a process has made.
--   Prelude the library's names, Boolean tests on numbers, arrays as lists and as functions, `for`
--           loops and counting. Lists has lemmas on lists, Loops has the rules for loops.
--
-- In each part State (Page in Stats, Words and Commands in Mysh) holds the data and the operations
-- have the names of the C functions; a test module holds runs and the theorems at concrete inputs.
--
-- Mlfq. Kernel is ptable, ninlevel, nextpid, initproc and the clock's table; a slot is an index
-- below NPROC = 64. Calls has allocproc, userinit, fork, exit, wait, sleep, wakeup, yield and kill;
-- each is one step, as the kernel holds ptable.lock while it uses the slots of others and ninlevel, but for
-- three: fork takes the lock in allocproc only, and then makes its child RUNNABLE and counts it, which are
-- steps of their own (show_child, count_child); the timer takes the lock for check_starve_and_boost and
-- again for yield; and main calls userinit before there is a process to switch to.
-- Scheduler has the two nested loops of scheduler() as a cursor and one test per step; a pass on
-- one processor has fuel for 2 * 65 = 130 tests, the rest of the row that the cursor is in and the
-- row of the highest level. Boost has check_starve_and_boost and the timer part of trap, Report has
-- getpinfo, Steps the calls in any order, with the number of children that fork has not counted yet, and
-- Tidy what holds of pids and new slots; an
-- increment without the lock is one step, as on one processor.
--
-- Shm. The counts are bit patterns of int; an address is a number below 2^32. The address space of
-- a process is the size of its heap, shmtop and the address of each region; page tables are in Vm.
-- The list of free pages holds the pages of regions only. Calls has the system calls and loops,
-- Refs, Keeps and Fork the reference counts, Attach and Grow the layout, Others and Children what a
-- call leaves alone; Steps the calls in any order, each as one step, Preserved and Safe what holds
-- after them; Access and Safety the checks of user addresses.
--
-- Vm. A page of memory is named by its address. A directory and its tables hold their entries as
-- values beside their addresses, since no page is the table of two directories. Frames has kalloc,
-- kfree and kinit, Tables has walkpgdir, mappages and setupkvm, Spaces allocuvm and deallocuvm,
-- Copies freevm and copyuvm. A loop over addresses has the number of its rounds computed from its
-- bounds. The addresses `end` and `data` that the linker sets are arguments `end` and `kdata`, and
-- `sz` and `shmtop` of the running process are arguments. `top` is a page number below which user
-- pages lie. View shows the user part as an array of entries, Balance counts who holds a page.
-- Release is deallocuvm; Fill and Grow are allocuvm;
-- Rounds and Identity are what setupkvm maps, Kernel and SetUp what it leaves alone; Private,
-- Copied and Forked are copyuvm; Own and Discard are freevm. Regions is the loop of shmgetat on a
-- page table, and Shared what two processes then see. loaduvm, which reads a file, and the
-- processor's registers are not modelled.
--
-- Server. A thread runs alone from Pthread_mutex_lock, or the return of Pthread_cond_wait, to the
-- next wait or unlock: worker_turn and master_turn are these sections, Step their interleavings. A
-- signal wakes a choice of waiting workers that is an argument, and a wait may end with no signal.
-- The ints count, write_buffer_no and read_buffer_no are numbers that do not wrap, as numbuff, an
-- int, bounds them. Uri and Request are the choice of an answer in request.c; what sscanf and stat
-- give are arguments.
--
-- Http. A connection is the list of the bytes that it carries; the end of the list is its end.
-- Bytes has rio_readlineb, Numbers what sprintf and sscanf do with numbers, Replies requestError,
-- requestServeStatic and requestServeDynamic, Requests requestReadhdrs and requestHandle, Client
-- clientSend and clientPrint. What a buffer on the stack holds before it is written is an argument,
-- and so are stat, mmap and a CGI program. The loops of requestReadhdrs and clientPrint have a
-- number of tests as fuel, and `none` is a loop that has not ended: for the first one more test
-- than there are lines is enough where a blank line comes, for the second one more than there are
-- bytes. A number has 20 digits at most, as it is below 2^64. Lines and Readhdrs are the proofs on
-- lines, Printed and Shown those on clientPrint, Received those on requestHandle; Pages, Exchange
-- and Errors join both sides. Errors of read and write, and writes of sprintf beyond
-- a buffer, are not modelled; a theorem on error pages has the page fit its buffer.
--
-- Mysh. A C string is the list of its bytes. The numbers of jobs are unsigned longs and wrap at
-- 2^64. What fork, waitpid and strtol return are arguments. The child of fork, which calls execvp
-- or exits, is not modelled.
--
-- Stats. A critical section under the semaphore is one step of a client. What the server prints is not
-- modelled: it reads the page without the semaphore, while clients write.
--
-- Sort. A file is the list of its bytes, and the data of the records are bytes in memory from `4 *
-- data_ptr` on; read of a regular file gives as many bytes as are left. varsort and
-- varsort_onemalloc differ in what they add to `pos`, which is `step`; varsort_2darray has a block
-- for each record (Blocks, Separate). qsort is an argument: IsQsort is what its manual says. malloc gives a
-- block of a size that is not negative as an int, and NULL for others; a read that writes beyond its
-- block ends the run as `corrupted`, since nothing can be said of what follows. Files and Records are the programs
-- that sort; Reads, Writes, Permuted, Ordered, Unique and Cut are the proofs. Generate is genvar, with what
-- rand returns as an argument, and Dump is dumpvar; Listed and Chain join them with varsort.
--
-- Count. A process has its register eax and its counter. Each trap is one step; the handlers are an
-- argument, apart from sys_getnumsyscallp. Calls is the dispatch, Totals the proofs.
--
-- In Mlfq and Shm arguments stand for kalloc, copyuvm, setupkvm and inode calls: a number that is 0
-- for a failure, or a test. The counters nextpid and the timer ticks of a process are numbers that
-- do not wrap. Not modelled: stack switches, locks as instructions, device drivers, the file system
-- and the user programs of xv6, which the projects take over from the base system, and what only
-- prints.
pub mod Prelude
pub mod Mlfq
pub mod Shm
pub mod Server
pub mod Vm
pub mod Mysh
pub mod Stats
pub mod Sort
pub mod Count
pub mod Http
