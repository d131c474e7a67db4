-- ===== src/Lib.antt =====
-- CS1550: the file system of project 4, the xv6 system of labs 3 and 4, and the programs of project 2.
--
-- The parts and their files. Each definition has the name of the C function or macro that it models,
-- without the prefix cs1550_; a long handler is cut into pieces, each with a name of its own.
--
-- proj4/cs1550.c, a FUSE file system in one file of bytes, with a root of directories, directories of
-- 8.3 files, and files as chains of blocks:
--   Fs.Bytes: the fields of the packed structs at their byte offsets, and C strings in them.
--   Fs.Disk: the image, open_block and write_block, the bitmap, find_next_free_block_index.
--   Fs.Path: the sscanf that splits a path.
--   Fs.Layout: the offsets of the structs' fields, open_root, save_root, open_dir, save_dir, and the
--   loops that look up a name.
--   Fs.Handlers: getattr, readdir, mkdir, rmdir, mknod, unlink, truncate, open, flush.
--   Fs.Data: read and write.
--   Fs.Bitmap, Fs.Blocks, Fs.Entries, Fs.Files, Fs.Mkdir, Fs.Mknod, Fs.Chain, Fs.RoundTrip and
--   Fs.Overrun hold the theorems.
-- A handler takes the image and the static variable next_free_block_index, and gives the value
-- returned and the new state.
--
-- lab3/xv6-public, parts of the kernel. A function that runs under a lock is one step; one that sleeps
-- is cut where it sleeps, and the rest of the system runs there.
--   Xv6.Pipe (pipe.c): a stretch of pipewrite and piperead between two sleeps. Xv6.Pipe.Fifo.
--   Xv6.Log (log.c): the commit and the recovery on a disk that loses power after a given number of
--   writes, and the reservations of begin_op. Xv6.Log.Crash, Xv6.Log.Reserve, Xv6.Log.Full.
--   Xv6.Proc (proc.c, and sys_setpriority of sysproc.c): the process table and the priority scheduler.
--   Xv6.Proc.Schedule, Xv6.Proc.Sleep, Xv6.Proc.Pids, Xv6.Proc.Steps.
--   Xv6.Memory (string.c), Xv6.Bio (bio.c), Xv6.Kalloc (kalloc.c), Xv6.File (file.c, sysfile.c), Xv6.Inode
--   (fs.c) and Xv6.Sleeplock (sleeplock.c), with
--   Xv6.Memory.Move, Xv6.Memory.Strings, Xv6.Bio.Unique, Xv6.Kalloc.Pages, Xv6.File.Refs,
--   Xv6.Inode.Cache, Xv6.Inode.Blocks and Xv6.Sleeplock.Exclusion.
--   Xv6.Inode.Data: readi and writei; Xv6.Inode.Bytes: the bytes of a block; Xv6.Inode.Content: the
--   bytes of a file as a function of the offset, which Xv6.Inode.Bmap, Xv6.Inode.Read, Xv6.Inode.Write and
--   Xv6.Inode.File are about. Xv6.Inode.Names: skipelem; Xv6.Inode.Dir: dirlookup, dirlink and namex;
--   Xv6.Inode.Lookup, Xv6.Inode.Entries and Xv6.Inode.Link: a directory as a sequence of entries;
--   Xv6.Inode.Walk: the fuel of namex. Xv6.File.Io: fileread and filewrite; Xv6.File.Write,
--   Xv6.File.Back.
--
-- lab3/xv6-public, programs that run on the kernel. A text is the list of its bytes up to the NUL.
--   User.Grep (grep.c): the matcher and the loop over the lines. User.Grep.Regex says what a pattern
--   means; User.Grep.Starts, User.Grep.Decides, User.Grep.Matcher, User.Grep.Lines.
--   User.Ulib (ulib.c): atoi, strchr, strcmp, gets; User.Ulib.Lines. User.Printf (printf.c):
--   printint and printf; User.Printf.Numbers, User.Printf.Formats.
--   User.Umalloc (umalloc.c): malloc and free. User.Umalloc.Place, User.Umalloc.Same,
--   User.Umalloc.Inserted, User.Umalloc.Insert, User.Umalloc.Free,
--   User.Umalloc.Take, User.Umalloc.Scan, User.Umalloc.Given, User.Umalloc.Malloc.
--   User.Sh and User.Sh.Parser (sh.c): gettoken, peek and the recursive descent. User.Sh.Ends: each call
--   takes characters off the line. User.Sh.Syntax: the grammar as data; User.Sh.Tokens, User.Sh.Words,
--   User.Sh.RoundTrip.
--
-- lab4/xv6-public, the kernel where sbrk only moves the size and a page fault allocates. Its page
-- allocator is the one of lab3, Xv6.Kalloc; its scheduler, which lab3 replaced, is left out.
--   Lab4.Vm (vm.c): walkpgdir and mappages, on pages of words with addresses. Lab4.Unmap: deallocuvm and
--   freevm. Lab4.Copy: setupkvm, copyuvm, allocuvm, clearpteu and uva2ka; Lab4.Copy.Keeps and
--   Lab4.Copy.Absent. Lab4.Lazy (trap.c, sysproc.c): the page fault and sys_sbrk; Lab4.Lazy.Fault.
--
-- proj1_test and proj2, programs on the system calls cs1550_down and cs1550_up:
--   Semaphore: the system calls as an interface, since their kernel is not in the repository; counts
--   meet it. Semaphore.Exclusive: a semaphore as a lock.
--   Traffic (trafficsim-mutex.c, trafficsim-strict-order.c): the processes as steps. Traffic.Critical,
--   Traffic.Order.
--   Apt (proj2/aptsim.c): agents and tenants, a step for each statement on the shared memory.
--   Apt.Exclusion, Apt.Deadlock, Apt.Overbook. Apt.Args: loadArguments; Apt.Args.Order.
--
-- Prelude re-exports what the files share, and has the search for the first index that passes a test.
--
-- Choices. An int of the file system is 4 bytes and a long or size_t 8, little endian; negative
-- counts and block numbers, which only a damaged image has, are read as large ones. The image file
-- is taken to open. What an uninitialised variable or array holds is a parameter. A name longer
-- than its array is scanned whole; the handlers refuse it after the overflow has happened, and the
-- overflow is not modelled. A buffer past 512 bytes has zeros. In write the error -1 of the search,
-- which the code does not test, and a first copy whose length wraps, on a chain shorter than the
-- offset, end the model with none. An int that is returned, nextpid and the number that atoi gives
-- are their 32 bits.
-- Fuel: the walks along a chain get one unit more than the offset, since each link passes 504
-- bytes; the copying loops get one more than the bytes left. freerange gets a unit for each page
-- below its end; readi and writei one for each byte; dirlookup and dirlink one more than a
-- directory's entries; namex one more than the path's length; filewrite one for each byte; the
-- shell's parser one more than the characters left; printint 32 for the digits of 32 bits; free two
-- for each free block and two more, malloc four and four more. The other loops run over a fixed
-- table.
-- In the log the content of a disk block is abstract, in fs.c it is 128 words. Memory is a function
-- of the address, and a pointer into a table is an index. What a process does while it runs is a
-- parameter of the scheduler.
--
-- The loops over pages in vm.c run once for each page of their range; the addresses of a process
-- are taken to end a page before 2^32. What kfree writes into a page is not recorded.
--
-- fork is two steps, since the lock is free between allocproc and the rest, and also their
-- composition.
-- fileclose and close end at the release of the lock of the file table: what follows for the last
-- reference, pipeclose or iput in a transaction, is in their result as a flag. filewrite is
-- sequential: no other process uses the inode between two chunks.
--
-- Not modelled: fuse-2.7.0 (a copy of the library), the labs' scripts and traces, proj3 (Python),
-- lab1 and proj1_test/trafficsim.c (which order lines by sleeping), the messages, the forks and the
-- random delays of proj2, and of the kernels loaduvm, copyout and the switch of page tables in
-- vm.c, traps but the page fault, drivers, spin locks, the boot code, and of the user programs
-- runcmd, nulterminate, main and the programs not named above.
-- Of a process its open files and directory are left out, of a call the processes that it wakes
-- through another module, and of log.c the readers' sleep.
pub mod Prelude
pub mod Fs
pub mod Xv6
pub mod Lab4
pub mod Semaphore
pub mod Traffic
pub mod Apt
pub mod User
