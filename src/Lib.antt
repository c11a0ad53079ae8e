-- ===== src/Lib.antt =====
-- Verification of the list library of assignment 1 (a1-phase2) and of parts of the xv6 kernel.
--
-- The list library keeps two static pools, ten nodes and two lists, and links them by indices.
-- Its files and the modules that model them:
--   a1-phase2/list.h            ListLib.Pool: the pools as functions from an index, with the bounds
--                               written at each access; an index of -1 is `none`
--   a1-phase2/list_adders.c     ListLib.Adders: nodeAllocator is `node_allocator`, ListAppend is
--                               `list_append`, and so on; `append_node`, `prepend_node`, `add_node`
--                               and `insert_node` are what follows the allocation
--   a1-phase2/list_movers.c     ListLib.Movers
--   a1-phase2/list_removers.c   ListLib.Removers
-- A function is a command over the pools; it gives `none` when it leaves a pool. ListLib.Chain and
-- ListLib.Shape say what well-formed pools are: two chains through `next` and the free chain, kept
-- apart by a ghost owner of each node. ListLib.Spec is the client's view, two sequences of items.
-- The modules Append, Prepend, Between, Concat, Cursor, Create, Errors and Loop hold the proofs.
-- The loops of ListCreate run on their number of rounds. The messages that the functions print are
-- not modelled. A `LIST *` is NULL or an entry of the pool of lists.
--
-- The kernel, xv6-A1/kernel, is modelled component by component, each in Kernel/<Component>.antt
-- with its proofs in the folder beside it. A critical section under a lock is one step; where a
-- function sleeps, its model says so and the caller tries again.
--   log.c      Kernel.Log: the disk and the cache are functions from block numbers to blocks of
--              words, and `power` counts the block writes that happen before the machine stops, so
--              that a crash at any write is a run with that power. The log and its header are as
--              in the source: `write_log`, `write_head`, `install_trans`, `commit`, recovery,
--              `begin_op`, `end_op`, `log_write`. Kernel.Log.Images says what a stopped disk may
--              hold, Kernel.Log.Space has the interleavings of operations
--   pipe.c     Kernel.Pipe: the ring with its two counters modulo 2 ^ 32; Kernel.Pipe.Queue is
--              the bounded queue that it implements; `copyin` and `copyout` of a byte are
--              arguments, and whom a call wakes is a part of its result
--   string.c   Kernel.Strings: the routines over one memory of bytes; `strlen` runs on a limit
--   kalloc.c   Kernel.Kalloc: the free list through the words of the pages; `freerange` runs on
--              one round for each page below its end, which is enough
--   proc.c     Kernel.Proc and Kernel.Proc.Calls: the table of processes; what the memory gives
--              (pages, page tables, copies) is an argument. Kernel.Proc.Reach has the steps.
--              Process ids are 32 bits that wrap; the counts of files and
--              directories that fork and exit change are not bounded
--   syscall.c  Kernel.Syscall: arguments, dispatch and trace; the functions of sysproc.c are
--              Kernel.Syscall.Calls, over the table of processes; `sys_wait` and `sys_pause` are
--              one round, which may sleep
--   file.c     Kernel.Files: the table of open files and its counts; what a last close gives up is
--              a value. The counts that fork and exit change are kept with the processes
--   sleeplock.c  Kernel.Sleeplock, over the table of processes
--   bio.c      Kernel.Bio: the buffers are indices, and 30 is the head of their ring, which is
--              `next` and `prev` as functions. A search makes one round more than there are
--              buffers, which suffices. `bwrite`, `bpin` and `bunpin` stand with the log
--   fs.c       Kernel.Fs: a block is its bytes and a disk its blocks as the cache holds them. Bits
--              and Bitmap have the free map, Dinodes the inodes on the disk, Maps the blocks of a
--              file (`bmap`, `itrunc`), Paths `skipelem` and `namex`, whose directories are an
--              argument. balloc runs on one round for each block of the map, namex on one more than
--              the path has bytes, and both are shown to suffice
--   console.c  Kernel.Console: the input ring with its three counters modulo 2 ^ 32;
--              Kernel.Console.Ring is the text that it holds. The loop of control-u runs on 128
--              rounds, the size of the ring
--   printf.c   Kernel.Printf: the characters are a list; a write outside of the buffer of printint
--              and an argument that is missing are `none`
-- The user programs, xv6-A1/user, stand in User:
--   grep.c     User.Grep: Items says what an expression means; the outer loop runs on one round more
--              than the file has bytes, the inner one on one more than the buffer has, and the sizes of the reads are an argument
--   printf.c   User.Printf, and User.Printf.Agrees for its relation to the kernel's
--   ulib.c     User.Ulib: atoi, memmove, gets; `strchr` stands with grep
-- Log, pipe and process use each other's contracts only by name: a channel is a value that is
-- compared, and the counts of open files are kept with the table.
-- Not modelled are the spinlocks, the virtual memory, interrupts and devices, which rest on the
-- machine, the shell and the small tools and tests among the user programs.
pub mod Common
pub mod ListLib
pub mod Kernel
pub mod User
