-- ===== src/Lib.antt =====
-- A verification library for the kernel of xv6-riscv-zig, a RISC-V teaching kernel in C (with some
-- Zig) whose parts share one address space and a few global structures.
--
-- The program's parts. System calls (src/kernel/syscall.c, sysproc.c, sysfile.c) run on behalf of a
-- process of the table of src/kernel/proc.c, and block by `sleep` until another process calls
-- `wakeup`. File system calls run between `begin_op` and `end_op` of src/kernel/log.c: they change
-- blocks in the buffer cache (src/kernel/bio.c) and call `log_write`, and the last `end_op` commits
-- all of them to the disk (src/kernel/virtio_disk.c). Pipes (src/kernel/pipe.c) pass bytes between
-- processes through a ring in memory, and the console (src/kernel/console.c) passes lines from the
-- UART's interrupts to readers. All of it uses the memory and string functions of
-- src/kernel/string.c.
--
-- What models what. Each definition has the name of the function it models, and loops and locked
-- sections of a function are definitions of their own.
-- - Prelude: Boolean tests, lists indexed by native numbers, memories as functions, code that may
--   stop in `panic`.
-- - Log (src/kernel/log.c): `Log` is `struct log` with the disk and the cached contents and
--   reference count of each block. Log/Writes, Log/Header and Log/Effect say what each phase writes,
--   Log/Commit and Log/Recover what the whole leaves, Log/Crash, Log/Atomic and Log/Again what a
--   stop between two disk writes leaves, Log/Busy and Log/Space how much of the log
--   is in use, Log/Absorb what `log_write` logs, and Log/Calls what a list of its calls does.
-- - Proc (src/kernel/proc.c, src/kernel/proc.h): `Table` is the process table with `nextpid`, a
--   process is named by its index. Proc/Pids and Proc/Steps are about pids along any sequence of the
--   table's steps, Proc/Wake about `wakeup` and `kill`, Proc/Child about `wait`.
-- - Str (src/kernel/string.c, and `memmove` of src/user/ulib/ulib.c): memory is a function from
--   addresses to bytes. Str/Move is about `memmove`, Str/Text about `safestrcpy`, Str/Compare about
--   `strlen`, `memcmp` and `strncmp`, Str/Pad about `memset` and `strncpy`.
-- - Ulib (src/user/ulib/ulib.c): `strcmp` and `strchr`. Ulib/Search says where they end.
-- - Pipe (src/kernel/pipe.c): `Pipe` is `struct pipe` with the wakeups made so far. Pipe/Ring sees
--   the ring as a list of bytes, Pipe/Sent and Pipe/Sending are about `pipewrite`, Pipe/Taken and
--   Pipe/Receiving about `piperead`, Pipe/Closing about `pipeclose`.
-- - Locks (src/kernel/spinlock.c, src/kernel/sleeplock.c): Locks/Nesting is about `push_off` and
--   `pop_off`, Locks/Exclusion about harts that compete for a spin lock.
-- - Bio (src/kernel/bio.c, src/kernel/buf.h): `Cache` is `bcache` with the disks. Bio/Edits says what
--   `bget` does on each branch, Bio/Keys and Bio/Steps that no block is cached twice, Bio/View and
--   Bio/Reading what reading through the cache returns and keeps.
-- - Files (src/kernel/file.c, the descriptors of src/kernel/sysfile.c): `Files` is `ftable` with the
--   caller's `ofile`. Files/Table is about reference counts, Files/Slots about descriptors,
--   Files/Counts, Files/Ends, Files/Pipes and Files/Calls about both through system calls.
-- - Print (src/user/ulib/printf.c, `atoi` of src/user/ulib/ulib.c): Print/Decimal reads numbers back,
--   Print/Buffer bounds the buffer of `printint`.
-- - Copy (src/kernel/vm.c): `custom_memcpy`, in its three loops. Copy/Words says what it copies.
-- - Blocks (src/kernel/fs.c, src/kernel/fs.h): `Disk` is the blocks as the buffer cache shows them,
--   each under the casts of the code. Blocks/Bits, Blocks/Search and Blocks/Bitmap are about the bits
--   of the bitmap, Blocks/Allocation about `balloc`, Blocks/Freeing about `bfree`,
--   Blocks/Logging about the blocks given to `log_write`.
-- - Content (src/kernel/fs.c): the content of inodes. Content/Slots says what a file is,
--   Content/Growth, Content/Extending and Content/Mapping are about `bmap`, Content/Reading about
--   `readi`, Content/Logging about the blocks given to `log_write`, Content/Overwriting,
--   Content/Writing and Content/Finishing about `writei`, Content/Clearing and Content/Truncating
--   about `itrunc`, and Content/Durable about `writei` and the log.
-- - Inodes (src/kernel/fs.c, src/kernel/file.h): `Inode` is `struct inode`, the table a list.
--   Inodes/Lookup is about `iget`, Inodes/Distinct and Inodes/Steps about any sequence of calls.
-- - Names (src/kernel/fs.c): `skipelem` over a memory of bytes. Names/Texts is about its loops,
--   Names/Elements about the whole.
-- - Shell (src/user/sh.c): the parser of command lines. `Cmd` is `struct cmd` with its five kinds; the
--   redirections of a command are kept apart until its arguments are complete. Shell/Tokens is about
--   `gettoken` and `peek`, Shell/Parsing, Shell/Commands and Shell/Lines about the parsers on any line,
--   Shell/Cutting about `nulterminate` and `parsecmd`, Shell/Words and Shell/Simple about lines of
--   words alone.
-- - Console (src/kernel/console.c): `Console` is `cons` with the characters echoed and the wakeups
--   made so far. Console/Ring and Console/View see the ring as lists of characters,
--   Console/Storing and Console/Typing are about `consoleintr`, Console/Delivery and
--   Console/Reading about `consoleread`.
-- - Uart (src/kernel/uart.c): `Uart` is the transmit ring with the characters sent so far. Uart/Sending
--   is about `uartputc` and `uartstart`, Uart/Input about `uartintr`, which calls `consoleintr`.
--
-- How the code is modelled. A function that changes a global structure takes it and returns it.
-- `Run` is the result of code that may call `panic`, and `Option` is a return of -1 or of a null
-- pointer. Each function runs as one step where the code holds a lock throughout, and is cut where
-- it sleeps or lets the lock go (`begin_op`, the two parts of `end_op`, `wait`, `pipewrite`,
-- `piperead`, the three parts of `iput`; `exit` runs as one step). The machine
-- may stop at any time: `power` of a `Log` counts the disk writes that still take effect. A disk
-- write of one block is taken to happen wholly or not at all, and in the order of the calls, as
-- `virtio_disk_rw` waits for each. What other code returns (`kalloc`, `proc_pagetable`, `uvmcopy`,
-- `copyin`, `copyout`) is an argument, failure included. Counters of type `uint` wrap at 2^32.
--
-- The functions of src/kernel/fs.c record their calls of `log_write` in a list. That `log_write` does
-- not panic on these calls is a condition of what is said of them. Log/Calls runs such a list on
-- the log, and Content/Durable puts the two together for `writei`.
--
-- Bounds and fuel. All loops of the log and of the table are structural recursion on their number
-- of rounds. `pipewrite` and `piperead` run on fuel `n + 1`: each round
-- copies at least one of the `n` bytes or ends the run, so the fuel is never used up. The loop of
-- control-U in `consoleintr` gets as many rounds as characters are edited, each round takes one.
-- `strlen`, `strcmp` and `strchr` run on fuel, more rounds than the text has bytes are enough. So do
-- `skipelem`'s loops. The loops of `balloc`, `readi` and `writei` get one round for each block of the
-- bitmap, and for each byte. The parsers of the shell run on fuel: each
-- round takes a byte of the line at least, so more than its length is enough.
--
-- What is not modelled. Outside Locks, lock operations stand for the cuts above. The list pointers
-- of the buffer cache (it is a list here), directories and path lookup, page tables,
-- the other drivers, `consolewrite`, the rest of the user library, what the shell does with a
-- command, and the other user programs are not modelled. Nor
-- is the Zig code (src/kernel/kalloc.zig, src/kernel/ringbuf.zig, src/common), the assembly and the build.
pub mod Prelude
pub mod Log
pub mod Proc
pub mod Pipe
pub mod Str
pub mod Locks
pub mod Bio
pub mod Print
pub mod Files
pub mod Copy
pub mod Console
pub mod Uart
pub mod Ulib
pub mod Blocks
pub mod Content
pub mod Inodes
pub mod Names
pub mod Shell
