-- ===== src/Lib.antt =====
-- A verification library of the kernel in this repository: xv6 for the x86, with a console whose
-- line editor has a cursor in the line, undo, a selection, a clipboard and tab completion.
--
-- The parts and how they meet. A key press reaches `consoleintr`, which edits the input ring and
-- paints the display (`consputc`: the CGA text memory and the serial line); at the end of a line it
-- lets `consoleread` have the bytes. The tab completion compares names with string.c. The file
-- system above the log brackets its block writes with `begin_op` and `end_op`; `log_write` names the
-- blocks and the last `end_op` commits them through the buffer cache. A pipe is a ring between two
-- processes that sleep and wake each other.
--
-- - Common: shared names; Boolean tests and conditionals (Common/Tests), lists over native numbers
--   (Common/Lists), 32-bit words (Common/Words), C arrays (Common/Store), runs of consecutive cells
--   (Common/Runs).
-- - Strings: string.c, `strncmp` and `strlen` over lists; Strings/Memory is `memmove`, `memcpy`, `memcmp`
--   and `safestrcpy` over memory, with theorems in Strings/Copies.
-- - Console: console.c. Console/State is `input`, `undo`, `clipboard` and `tab_state` with the
--   display; Console/Display is `cga_get_cursor_pos`, `cga_set_cursor_pos`, `cgaputc`, `consputc`
--   (and uart.c's `uartputc`); Console/Select is `update_highlight`, `clear_selection`,
--   `deselect_if_any`, `delete_selection`; Console/Complete is `find_lcp_len`,
--   `print_matches_and_redraw`, `handle_tab_completion`; Console/Keys, Console/Keys/More and
--   Console/Intr are the cases and the loop of `consoleintr`; Console/Read is `consoleread` and
--   `consolewrite`; Console/Print is `printint` and `cprintf`. The theorems: Console/Ring (the
--   shifts of the ring), Console/Line (the line as two halves about the cursor), Console/Edit,
--   Typing, Remove, Moves, Newline (what keys do to it), Marks, Order, Order/Words and Order/Keys (the order of
--   the indices), Print/Digits (numbers), Read/Lines (what a reader gets).
-- - Log: log.c over bio.c's `bread` and `bwrite`. Log and Log/Ops hold the definitions;
--   Log/Recovery and Log/Replay what installing does, Log/Crash the power failures, Log/Reserve and
--   Log/Space the space that `begin_op` reserves.
-- - Bcache: bio.c with the links of its list, sleeplock.c, and `iderw` of memide.c. `bget` is `claim`,
--   the part under the cache's lock, and then `lock_buf`. Bcache/Chains is about links that run
--   through a list, Bcache/Chains/Search about the loops of `bget`, Bcache/Order about `binit` and the
--   move of `brelse`, Bcache/Once, Sound and Runs about one buffer for each block.
-- - Grep: grep.c's matcher, and the loop of `grep` over what `read` returns in Grep/Buffer. Grep/Meaning
--   reads a pattern as a list of parts, and Grep/Buffer/Lines a text as its lines.
-- - Shell: the parser of sh.c, whose panics and lack of fuel are results; Shell/Total is about its
--   end, Shell/Tokens and Shell/Words about its tokens, and Shell/Commands and Shell/Pipelines about printed pipelines.
-- - Spinlock: spinlock.c, whose `acquire` and `release` are cut where other CPUs may run
--   (Spinlock/Exclusion); Spinlock/Nesting is about `pushcli` and `popcli`.
-- - Pipe: pipe.c, with the queue in Pipe/Fifo and the theorems in Pipe/Laws.
-- - Kalloc: kalloc.c, with the free list through the pages' own first words; Kalloc/Pages has its
--   theorems.
-- - Vm: vm.c's page tables in the memory of kalloc.c, with `growproc` in Vm/Processes. Vm/Entries is
--   about the words of the tables, Vm/Spaces about a directory and its tables beside the free pages,
--   Vm/Tables and Vm/Walks about `walkpgdir`, Vm/Maps about `mappages`, Vm/NewPage and Vm/Grows about `allocuvm` and Vm/Ends about
--   the rounds of `deallocuvm`.
-- - File: file.c's table, `filealloc`, `filedup` and, as `drop_ref`, the part of `fileclose` under the
--   lock, with theorems in File/Refs; File/Io is `fileclose`, `filestat`, `fileread` and `filewrite`
--   over the pipes and the inodes, and File/Writes about what the rounds of `filewrite` store.
-- - Syscall: syscall.c, the arguments that the kernel fetches from the memory of a process;
--   Syscall/Words is about the words of the user stack, Syscall/Arguments says which arguments it
--   accepts.
-- - Sysfile: sysfile.c. Sysfile is `argfd`, `fdalloc`, `sys_dup`, `sys_close` and the end of `sys_open`,
--   Sysfile/Calls the reads and writes, Sysfile/Pipes `pipealloc` and `sys_pipe`, Sysfile/Links
--   `sys_link`, `isdirempty` and `sys_unlink`, Sysfile/Creates `create` and the calls that use it,
--   `sys_chdir`, and the arguments of `sys_exec`. Sysfile/Counts counts the descriptors that name a
--   file, with Counts/Runs, Kept, Owed, Piped and Reach on what the calls do to it; Sysfile/Links/Removal is
--   about directories that lose an entry.
-- - Fs: fs.c over the blocks that `bread` gives. Fs/Blocks is `bzero`, `balloc` and `bfree`, with the
--   free map as a set in Fs/Blocks/Alloc and Fs/Blocks/FreeMap (the bits of a byte in Fs/Bits);
--   Fs/Inodes is `iupdate` and `ilock`, with Fs/Inodes/Disks on the form on the disk; Fs/Content is
--   `bmap`, `itrunc`, `stati`, `readi` and `writei`, with a file as the bytes at its offsets in
--   Fs/Content/View, RoundTrip and Files; Fs/Cache is `iget`, `idup`, `iput` and `ialloc`, with
--   Fs/Cache/Once and Runs on entries for one inode; Fs/Names is `skipelem` (Fs/Names/Paths), Fs/Dirs
--   `namecmp`, `dirlookup` and `dirlink` (Fs/Dirs/Scans and Links), Fs/Walk `namex`, `namei` and
--   `nameiparent`.
-- - Proc: proc.c, the scheduling state of the slots of `ptable`; Proc/Zombies and Proc/Reach are about
--   sleeping parents, Proc/Exit and Proc/Wait about `exit` and `wait`.
-- - Bcache/Tests, Console/Tests, File/Tests, Fs/Tests, Fs/DirTests, Grep/Tests, Kalloc/Tests,
--   Log/Tests, Pipe/Tests, Proc/Tests, Shell/Tests, Spinlock/Tests, Strings/Tests,
--   Syscall/Tests, Sysfile/Tests, Sysfile/Links/Tests, Vm/Tests: the operations and the theorems at concrete states.
--
-- How the code is read. An `int` and a `uint` are both the bit pattern, a number below 2^32; sums
-- and differences wrap round, the tests of an `int` compare signed values. A C array is a function
-- from cell numbers, so an index beyond the end reads the memory behind the array, as in C, and not
-- an error. Each function takes the state of its component and returns the new one; a lock makes the
-- stretch between two sleeps one step. What other processes do while a call sleeps is a list of
-- naps, each the change of the state that the process finds when it wakes, and whether it was
-- killed meanwhile; where the list ends the call is still asleep, which is a result. `panic` sets a
-- flag that nothing resets on the display and is `none` in the log. A power failure is the number of
-- block writes that still reach the disk.
-- There is one disk, whatever the device that an inode names, and a key is below 256. `fork` and
-- `end_op` are one step each, although copies of memory and the commit run with no lock held.
--
-- Loops are structural, over lists or over the count of steps that the code's own bound gives: a
-- shift over [c, e) takes e - c steps, and so on. The digits of `printint` take 32 steps of fuel,
-- enough for a 32-bit number in any base from 2 (it divides by the base until zero); for decimal numbers
-- int_bytes-decimal shows it. The loops of `bget` over the list have
-- 31 rounds of fuel, which claim-choose shows to be enough for its 30 buffers. The parser of sh.c has
-- the length of the text and one more, which parsecmd-ends shows to be enough, and the loop of
-- `deallocuvm` the pages of its range, for which dealloc_from-ends does;
-- a lack of rounds is a result of its own there. The rounds of `filewrite` are
-- at most its bytes, which filewrite-Stored shows to be enough.
--
-- What is not modelled. Boot, traps, devices and assembly, which are port and register accesses; of
-- proc.c the open files in `fork` and `exit`, the contexts of processes, `userinit` and `procdump`; `memset` and
-- `strncpy`; of vm.c the registers of the processor and the copies by single bytes; the sleep locks of
-- inodes, `readsb` and `iinit`, exec.c and sysproc.c, what of sh.c runs commands, `main` of grep.c and
-- the other user programs. Of the two disks memide.c is modelled, ide.c not. The text that `panic` prints, and the waiting of `uartputc` for
-- the line, have no state to follow.
pub mod Common
pub mod Strings
pub mod Log
pub mod Pipe
pub mod Kalloc
pub mod File
pub mod Proc
pub mod Fs
pub mod Console
pub mod Grep
pub mod Bcache
pub mod Shell
pub mod Spinlock
pub mod Vm
pub mod Syscall
pub mod Sysfile
