-- ===== src/Lib.antt =====
-- The kernel of TP2_SO, an xv6 for the i386 with a lottery and a priority scheduler.
--
-- The program's parts and their files here:
--   * proc.c and proc.h, the process table and the schedulers: Proc.antt has the records (`struct
--     proc` is `Proc`, the globals are `Kernel`). Proc/Table.antt has allocproc, wakeup, kill,
--     set_priority, countprocs and set_max_time; Proc/Life.antt has userinit, growproc, fork,
--     exit, and what exec (exec.c) writes to the process when it commits to the new image; Proc/Wait.antt has wait and wait2; Proc/Sched.antt has sched, yield, sleep and the two
--     bodies of scheduler. Proc/System.antt puts them together as steps of the kernel from its boot,
--     with the writes of sys_set_tickets, sys_trace and exec among them.
--   * log.c, the write-ahead log: Log.antt. A block is the list of its words. A `Machine` is the
--     cache, the disk and the number of writes that still reach the disk before the power fails.
--   * pipe.c, the pipes: Pipe.antt.
--   * kalloc.c, the page allocator: Kalloc.antt. The links of the free list stand in the pages.
--   * spinlock.c, the spin locks: Spinlock.antt, one try at the `xchg` at a time. sleeplock.c, the
--     sleep locks: Sleeplock.antt.
--   * bio.c and the memory disk of memide.c, the buffer cache: Bio.antt. The list of buffers is the
--     order of their indices; bread stops where it goes to sleep. Bio/Steps.antt has the calls of any
--     processes in any order, on the buffers to which they have references (Bio/Refs.antt).
--   * fs.c, the file system on its blocks: Fs.antt has balloc and bfree, Fs/Inode.antt iupdate, the
--     reading part of ilock, bmap, itrunc, readi and writei. The disk is seen as bio.c and the log
--     show it, as an array of blocks. Fs/Content.antt says what the bytes of a file are. Fs/Path.antt
--     has skipelem, Fs/Directory.antt dirlookup and Fs/Linking.antt dirlink; the entries of the inode
--     cache that these two get and put are left out.
--   * file.c, the table of open files: Ftable.antt. Ftable/Transfer.antt has fileread and filewrite, on
--     pipes and on inodes, the chunks of a write with nothing between them; Ftable/Calls.antt has, of sysfile.c, argfd, fdalloc, sys_dup, sys_close and
--     the end of sys_open. A file is an index of the table, and a descriptor holds the index plus 1.
--   * vm.c: Vm.antt has walkpgdir and mappages, on a memory of words and the stack of the free pages of
--     kalloc.c. Vm/Space.antt says what an address space is.
--   * syscall.c and sysproc.c: Syscall.antt. The memory of the process is a function from addresses to
--     bytes; the handlers are an argument of the dispatch.
--   * sh.c, the parser of the shell: Sh.antt. A place in the line is the list of the characters from
--     there on. Sh/Grammar.antt says which lines there are, what they mean and how they are written.
--   * grep.c, the matcher: Grep.antt, with the language of an expression in Grep/Language.antt.
--   * console.c: Console.antt has the input ring, consoleintr, consoleread and cgaputc, and
--     Console/Print.antt has cprintf and its printint.
--   * ulib.c and printf.c, of the user programs: Ulib.antt. A string is the list of its characters up to
--     the 0.
--   * rand.c, the random numbers from which the lottery draws: Rand.antt.
--   * string.c, the byte and string routines: Str.antt.
--   * Prelude.antt and its children have the words of 32 bits, the outcomes of code that can panic,
--     and the lemmas on lists.
--
-- How they interact. proc.c calls the page allocator, the virtual memory, the file table, the inodes
-- and the log; these are the fields of the record `Services`, functions on a state of their own, and
-- nothing is supposed of them. A pointer into the process table is an index, and null is `none`; any
-- other pointer is an address. fork copies the parent's name with safestrcpy. The lottery takes its
-- winner from random_at_most.
--
-- Sleeping and switching. A function of the model ends where the code switches to another context or
-- goes to sleep, with the state at that moment: sched ends at its swtch, sleep is split into the part
-- before the switch and `awake`, a pass of wait ends in `asleep`, a pipe's call in pieces. Steps of
-- the kernel interleave these pieces in any order. The state of the other parts holds no spin
-- locks: a piece runs under its lock. What sched asks of the locks is the argument `SchedGuard`.
--
-- Bounds and fuel. An `int` is its pattern of 32 bits, and sums wrap. The loops over the process
-- table run over the list of its slots, or over an index that counts up to NPROC. random_at_most
-- draws until a number is not rejected; the model has fuel for the draws, one unit for each.
-- freerange has fuel for vend / PGSIZE + 1 rounds, more than a range that ends at `vend` has pages.
-- kill_line may take 128 characters, as many as the ring has. A number has at most 32 digits. balloc
-- has a round for each block of the bitmap, and one more. The loops of readi and writei move at least
-- a byte in each round, and have n + 1 rounds; those of dirlookup and dirlink have one more than the
-- directory has entries. filewrite writes at least a byte in each round, and has a round for each byte.
-- In the shell's parser a loop over tokens has a round for each character left and one more, and
-- parsecmd starts with three units of fuel for each character and three more. mappages has a round for
-- each page.
--
-- Not modelled: exec but its commit; swtch, trapret and the other assembly; procdump and the start of the processors; the
-- device drivers but memide.c; the inode cache, ialloc and namex of fs.c, and its devices; filestat,
-- sys_sleep and sys_uptime, and the system calls on paths; of vm.c all but walkpgdir and mappages; the
-- traps; of sh.c and grep.c all but the parser and the matcher, since the rest makes system calls; the
-- other user programs, umalloc.c and mkfs.c.
pub mod Prelude
pub mod Str
pub mod Syscall
pub mod Proc
pub mod Log
pub mod Rand
pub mod Pipe
pub mod Kalloc
pub mod Spinlock
pub mod Ulib
pub mod Vm
pub mod Console
pub mod Sleeplock
pub mod Bio
pub mod Fs
pub mod Ftable
pub mod Grep
pub mod Sh
