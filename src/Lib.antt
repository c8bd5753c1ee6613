-- ===== src/Lib.antt =====
-- The kernel of xv6-B06: its process module, with linked state lists and a multi-level feedback
-- scheduler, and the parts around it. The configuration is that of xv6-B06/Makefile: BAGIAN_ID,
-- BAGIAN_UPROC, BAGIAN_INODE and LS_EXEC are defined, so of each pair of functions in proc.c the
-- second is modelled.
--
-- Files, and the sources that they model:
-- - Run: the ways a kernel function ends (a value, panic, a spin on a lock, an access outside an
--   array, no fuel), and commands that pass the state on.
-- - Tests: the theorems at concrete inputs, those on one part in a child module.
-- - Spinlock: xv6-B06/spinlock.c (pushcli, popcli, holding, acquire, release) on one lock and one
--   CPU; a lock that another CPU holds makes acquire end in `spins`.
-- - StateList: the list operations of xv6-B06/proc.c (addToStateListHead, addToStateListEnd,
--   removeFromStateList, removeHead). A `struct proc **sList` is a Slot; the `next` fields of all
--   processes are one function, and a process is named by its place 1 to 64 in ptable.proc.
-- - Proc: `struct proc`, `ptable` and the state of proc.c. Table is what ptable.lock guards; the
--   calls of other parts (cprintf, kfree, swtch, ...) are recorded in its trace.
-- - Proc/Sched: sched, yield, promoteAll, scheduler. Proc/Sleep: sleep, wakeup1, wakeup, kill,
--   setpriority. A function that calls sched() ends at swtch() in the model, and another
--   definition, named ..._return, says how it goes on.
-- - Proc/Alloc: allocproc, fork. What kalloc() and copyuvm() give back is an argument of the model,
--   an address or 0.
-- - Proc/Init: userinit, from zeroed memory; the pages and the root directory's inode are arguments.
-- - Proc/Wait: wait, one round of its loop at a time; the next round follows when the process has
--   woken. Proc/Exit: exit, up to the switch from which it does not return. What it
--   calls of file.c, log.c and fs.c is behind the interface Outside, because those calls wake processes
--   and sleep: when one is back, the table may have changed, but is in order, and the trace shows the call
--   (Proc/Exit/Close, IsOutside).
-- - Kernel: how the functions of proc.c follow one another on one CPU, as a step relation between a
--   process, the switch out of it, the scheduler and the switch into the next process. A step is a
--   call that comes to its end; the timer of trap() may count between any two. Each way back into a
--   process may follow each way out of one, setpriority() has a priority that sys_setpriority() lets
--   through, and sleep() is the one without a lock.
-- - Log: xv6-B06/log.c. A block is an array of words, `buffers` what bread() gives, and `writes` the
--   writes that reached the disk, so that a crash is a prefix of them (Log/Crash).
-- - Pipe: xv6-B06/pipe.c. A call that goes to sleep ends there, and the loop can be entered again at
--   the byte where it stopped. Pipe/Alloc is pipealloc, on the files of File.
-- - Kalloc: xv6-B06/kalloc.c. `mem` holds the word at each address; the linker's symbol `end` is the
--   argument `end_at`.
-- - File: xv6-B06/file.c. What fs.c and pipe.c do is behind the interface Devices.
-- - Syscall: the argument fetches of xv6-B06/syscall.c. `none` is the result -1.
-- - Sysfile: argfd, fdalloc and the calls dup, close, read and write of xv6-B06/sysfile.c, for one
--   process; references from elsewhere are a number for each file.
-- - Grep: match, matchhere and matchstar of xv6-B06/grep.c; Grep/Language says what a pattern means.
-- - CString: xv6-B06/string.c (safestrcpy; memmove in Block, memcmp and strncmp in
--   Compare, memset, memcpy, strncpy and strlen in Text).
--
-- Loops over a list run on fuel 64 or 65: a list in order holds distinct processes of the table, so
-- at most 64 (StateList/Capacity), and one more round sees the null pointer. The fuel is
-- therefore not used up on a table in order. freerange has fuel for the 2 ^ 20 pages of the address
-- space, and filewrite for one round more than it has bytes. `int` and `uint` are the 32-bit patterns.
--
-- Not modelled: the hardware behind swtch, switchuvm and the interrupt controller, the text of
-- messages with numbers in them, and the debugging fields of locks.
pub mod Prelude
pub mod Run
pub mod CString
pub mod Spinlock
pub mod Proc
pub mod Log
pub mod Kalloc
pub mod Kernel
pub mod Grep
pub mod File
pub mod Syscall
pub mod Sysfile
pub mod Pipe
pub mod StateList
pub mod Examples
pub mod Tests
