-- ===== src/Lib.antt =====
-- melonOS is a kernel for one i386 processor. This library models its memory management
-- (kernel/memory), its processes (kernel/process.c), its open files and pipes (kernel/fs/file.c,
-- kernel/pipe.c), its file system (kernel/fs) and the C library below them (lib).
--
-- Common holds what all parts share: arrays as lists, memory as a function from addresses to bytes,
-- bits, the result type with `panic`. It models no code of its own but `kassert` of kernel/err.h.
--
-- Libc: lib/string.c. Libc/Mem has memset, memmove and memcpy over byte memory, Libc/Str has strlen,
-- strncmp, strncpy and memcmp, Libc/Str/Copy says what strncpy writes, and Libc/Spans has strspn,
-- strcspn, strpbrk and strchr on the bytes before the NUL, Libc/Tokens strtok_r
-- and Libc/Reverse strrev. Libc/Ctype is lib/ctype.c, and Libc/Numbers has print_uint and print_int of
-- lib/fmt.c as the text that they write, and atoi of lib/stdlib.c. strlen has fuel, one more than the
-- string is long.
--
-- Memory: i386/mem.h is Memory/Layout, i386/mmu.h is Memory/Mmu, and Memory/Word has the 32-bit loads
-- and stores. Memory/Palloc is kernel/memory/palloc.c: the free list runs through the pages
-- themselves, `end` of kernel.ld is the parameter `kernel_end`, and the loop over a range has as many
-- rounds as the range has pages. Its children: what a page is (Pages), the free list as a list of
-- pages (FreeList), ranges (Range), and callers that own pages (Owners). Memory/Pgtbl is
-- kernel/memory/pgtbl.c, whose loops have the number of pages of the range as rounds; Translate is
-- the walk of the processor, Tables says when a directory is well-formed, and Walk, NewTable, Entries,
-- Map, MapLoop and MapPages follow the calls from one entry to whole ranges. Memory/Vmem is
-- kernel/memory/vmem.c; `data` of kernel.ld is the parameter `kernel_data`.
--
-- Fs: Fs/Types is kernel/fs/fdefs.h and fdefs.fwd.h, Fs/File the table of open files, with reference
-- counts in Fs/File/Refs. Fs/Pipe is kernel/pipe.c: a call holds the lock of the pipe, so it is a step
-- up to a sleep, and a process that has been woken starts its loop again as another step. Queue reads
-- the ring as a list of bytes, Wakeups has the effect of each step, Lost those who sleep on the pipe,
-- Runs all orders of steps. The two
-- channels of a pipe are parameters.
--
-- Process: Process/Types is kernel/process/pdefs.h, Process/Table the slots of the table and
-- wakeup, Process/Life has fork, exit, wait and grow_process, and Process/Sched the scheduler, yield
-- and sleep. Life/Missed, Life/Reparent, Life/Orphans and Life/Exit, and Life/Found, Life/Reap and Life/Wait follow the children of a process, Sched/Steps takes
-- the calls as steps in any order. A pointer to a process is its slot, a pointer to a file its place
-- in the table. `trapret` and `forkret` are parameters.
--
-- Disk: the file system on the disk. Disk/Types has the buffers of kernel/fs/fdefs.h and calls that may
-- never come back; Disk/Sync is kernel/fs/disk.c, with Requests for one request, and Queue, Handled and Served for
-- the queue; Disk/Cache is kernel/fs/bcache.c, with Solo and Held for the ring and Visits for a block that is
-- read, written and released; Disk/Store states what the code above uses of it. Disk/Block is
-- kernel/fs/block.c (Bytes: the bits of a byte, Freemap: the map,
-- Alloc: block_alloc), Disk/Dinode, Disk/Inode and Disk/Content
-- are kernel/fs/inode.c, with Bytes and Pieces on buffers, and Direct, Written, Stored and RoundTrip
-- on the bytes of a file. Disk/Dir is kernel/fs/dir.c. The drive is a
-- parameter: it keeps the bytes of each sector and interrupts after a command. A loop over
-- the ring or the queue has as many rounds as there are nodes, which is enough to come back, and a loop
-- over bytes as many as bytes.
--
-- Dev: Dev/Console is kernel/dev/console.c, the handlers on the bytes that the port gives and the reads as
-- rounds up to a sleep; Lines follows a line from the keys to the reader. Dev/Keyboard is
-- kernel/driver/kbd.c.
--
-- Sys: kernel/sys/syscall.c and fs_fdalloc of kernel/fs.c, as far as they act on descriptors, with the
-- arguments given instead of fetched from the stack of the user.
--
-- Locks: kernel/trap/ncli.c, kernel/process/spinlock.c and kernel/process/mutex.c, on the one
-- processor. Nesting has sections with interrupts off and spin locks, Mutexes those who sleep.
--
-- Interrupts are off while a lock is held and there is one processor, so a call that holds a lock is
-- one step; exit has the panics of lock and sched, and the other parts leave the locks out. Also left out: what touches registers and ports (the
-- boot loader, drivers, traps, descriptor tables, the switch of stacks), the loading of programs, the system
-- calls on paths, strtol and format, and the programs of the user.
pub mod Common
pub mod Libc
pub mod Memory
pub mod Fs
pub mod Process
pub mod Disk
pub mod Dev
pub mod Sys
pub mod Locks
