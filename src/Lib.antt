-- ===== src/Lib.antt =====
-- CS344 operating systems lab: changes to the xv6 kernel, and what they do.
--
-- The repository holds the files that each lab task edits; the rest of xv6 (locks, the buffer cache
-- and the log, virtual memory, the page allocator, the trap assembly) is not in it. A directory is
-- a task:
--   Lab-2/Group-3_CSE_Lab-2_Submissions/Task 2.1  weighted round robin: kernel/trap.c, proc.c, sysproc.c
--   Lab-2/Group-3_CSE_Lab-2_Submissions/Task 2.2  lottery scheduling: kernel/proc.c, sysproc.c
--   Lab-3/Group-3_CSE_Lab-3_Submission/Task_3.1   mailboxes and shared memory: kernel/mbox.c, shm.c
--   Lab-3/Group-3_CSE_Lab-3_Submission/Task_3.2   a maze that processes solve: user/master.c, process.c
--   Lab-5/Group-3_CSE_Lab-5_Submission/Task 5.1   doubly-indirect blocks: kernel/fs.c, fs.h, file.h
--   Lab-5/Group-3_CSE_Lab-5_Submission/Task 5.2   symbolic links: kernel/sysfile.c
--
-- Base: Boolean tests on numbers, lists read and written by index, the search loop
-- `for (i = 0; i < n; i++) if (test(a[i])) return i;`, `int` values, and lists of indices as bags.
--
-- Mbox: Task_3.1 kernel/mbox.c. A box is a record, the table a list. `send_pass`, `recv_pass` and
-- `close_entry` are what mbox_send, mbox_recv and mbox_close do with the lock of a box held, from
-- the first test to the return or to `sleep`. Mbox.System has the processes that make the calls
-- (kernel/sysproc.c) and those that sleep and are woken: `step` is one such stretch of one process,
-- and a list of actions is an interleaving. mbox_create works without the lock until it resets the box
-- it has claimed, so it is four steps that others may come between; the theorems about histories ask
-- that every create runs through (Mbox.System.Create.Whole), and Mbox.System.Tests has a history where
-- one does not and a message is lost. The model has no fuel: a step ends by itself.
--
-- Shm: Task_3.1 kernel/shm.c. Page tables are a parameter (Shm.Memory) with what `walk`, `mappages`
-- and `uvmunmap` do to the presence of an address; what `kalloc` returns is an argument, and the pages
-- given to `kfree` are a result.
--
-- Proc: Task 2.2 kernel/proc.c. A process is a record, the table a list of NPROC of them, and a
-- function of the C code is a function on the kernel's state that runs without interruption, up to
-- `sleep` or `sched`. The counter of process ids is an `int`; a theorem about fork asks that it is below
-- the largest one. Whether the page allocator gives memory is an argument (Memory). Proc.Exit has
-- reparent, exit and wait; Proc.Lottery has rand32 and a round of scheduler.
--
-- Wrr: Task 2.1 kernel/trap.c with the scheduler's pass over the table, and the calls that set and
-- read the priority. Whether another process has killed this one while it had given up the CPU is an
-- argument of usertrap. It uses the process states of Proc.
--
-- Fs: Task 5.1 kernel/fs.c. The disk is the bitmap, the inodes and the bytes of the blocks, and an
-- inode is locked, so a function runs without interruption. Fs.Slots names the places where an inode
-- keeps block numbers (its 13 entries, and the words of its index blocks) and states that they are
-- in use and all different. Fs.Content is what a file is: a byte for each offset. Fs.Io has readi
-- and writei on top of bmap. Their loops have fuel `n`, and each round takes at least one byte of
-- the `n`, so the loop ends before the fuel does; the results say so. Fs.Itable is the table of inodes
-- in memory, with iget, idup and ialloc; Fs.Inodes puts the locks beside it and has ilock, iput and
-- ireclaim, and Fs.Trunc has itrunc. Fs.Path has skipelem, and the list of a path's elements. Fs.Dirs
-- has dirlookup and dirlink, whose loops have the size of the directory in bytes as fuel and take 16
-- of them a round. Fs.Names has namex, with one round of fuel for each byte of the path and one more;
-- a round takes an element off, so the fuel is never used up. It tells a wait for a held lock (`waits`)
-- from a panic; in the other operations both are `none`. Fs.Accounts says, for each of these operations,
-- from any state and for each entry of the table, which references and locks it takes and gives back.
--
-- Sysfile: Task 5.2 kernel/sysfile.c. sys_dup, sys_close and the calls on an open file are over a
-- table of files (Sysfile.Files) with what filedup and fileclose do to a file's reference count. The
-- calls that take a path are over a record of the calls of fs.c, file.c and log.c that they make
-- (Sysfile.Calls.FileSystem) and what each does to the references and the lock of each inode, the
-- transactions and the references of each file (Accounts). Sysfile.OverFs fills it with the functions
-- of Fs, a counter for the log and a table of files. Sysfile.Links has sys_link and sys_unlink, Sysfile.Create has create,
-- sys_symlink, sys_mkdir, sys_mknod and sys_chdir, and Sysfile.Open has sys_open. The loop over symbolic
-- links runs at most ten times, as in the code; that of isdirempty has the size of the directory as
-- fuel and takes 16 bytes a round. A call that does not return, by a panic or a wait without end, is
-- `none`. Sysfile.Pipe has sys_pipe, and Sysfile.Exec has sys_exec, whose loop has MAXARG rounds as in
-- the code; what pipealloc, copyout, kalloc and kexec do are parameters.
--
-- Syscall: kernel/syscall.c and syscall.h of Lab-2 Tasks 2.1 and 2.2, Task_3.1 and Task 5.2, which
-- differ in the table of calls only. Copies from user memory are a parameter, and so is what the
-- calls do, to the trap frame too.
--
-- Ulib: Task_3.2 user/ulib.c. A string is the list of its bytes before the NUL; memory is a byte for
-- each address. `itoa10` has fuel for ten digits, which every 32-bit number fits.
--
-- Sizes: numbers of the model are unbounded. Where the C code relies on a width, the function keeps
-- the wrap-around (`% 2 ^ 32`), or the comment at the type says why a value stays in range.
--
-- Not modelled: locks other than as the bounds of an uninterrupted stretch; page tables and the page
-- allocator; the buffer cache and the log other than as calls; the programs; the printing.
pub mod Base
pub mod Mbox
pub mod Shm
pub mod Proc
pub mod Wrr
pub mod Fs
pub mod Sysfile
pub mod Syscall
pub mod Ulib
