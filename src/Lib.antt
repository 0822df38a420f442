-- ===== src/Lib.antt =====
-- Verification library of the operating-systems homework repository: a shell (hw1), a web server
-- with a thread pool (hw3) and memory allocators (hw4).
--
-- The parts and the files that model them:
-- - WebServer/NodeHeap, WebServer/Queue: hw3/webserver-files/queue.c over a memory that maps
--   addresses to nodes. Each C function is a command `Memory → Run A`, which ends in a result, a
--   fault (a read or write through NULL or a freed address, a division by zero) or out of fuel.
--   What `malloc` and `rand` return are arguments; `Close` is a log. `queueCreate` is
--   `queue_create`, `queueDiscardX` is `queue_discard`, and so on. The C `int` is an integer
--   without a bound, which a queue of open descriptors cannot reach. `queueDestroy` and
--   `queuePrint` walk to NULL on fuel: one round more than there are nodes is enough. Below
--   `WebServer/Queue`, `Chain` says which list of items a queue stands for, and `Push`, `Pop`,
--   `Spot`, `Remove`, `Discard` and `Destroy` prove the functions against that list.
-- - WebServer/Server: hw3/webserver-files/server.c, the acceptor of `main` and the workers of
--   `thread_routine`, as a step relation over the queues as lists: one critical section of the
--   mutex is one step, `pthread_cond_wait` ends a section, and signals, broadcasts and spurious
--   wakeups are steps or parts of one. `admit` is the switch over the overload policies,
--   `Percent` the single-precision product of DROP_RAND. `Invariant`, `Steps`, `Ownership` and
--   `Safety` hold the proofs. A `queuePush` that finds no memory is not modelled, since its result
--   is ignored; a connection's handling between two sections has no effect on the queues.
-- - Malloc/Words: `size_t` arithmetic, `sbrk`, `memmove` and `memset`. Whether the kernel grants an
--   `sbrk` is an argument.
-- - Malloc/Naive: hw4/malloc_1.cpp.
-- - Malloc/FirstFit: hw4/malloc_2.cpp. Memory holds a `MallocMetadata` and a byte at each address;
--   the counters wrap at 2^64. The list's loops run on fuel: more than the number of blocks is
--   enough. Memory that `sbrk` hands out is zero, as Linux has it. `Layout` says which blocks a heap
--   stands for, `Loops` and `Counters` have the list's functions, `Place` the abstract placement,
--   and `Alloc`, `Release`, `Apart` and `Resize` prove the interface against it.
-- - Malloc/BestFit: hw4/malloc_3.cpp. `Memory` has a cell at each address, which holds a whole field
--   where a field of a struct begins and else a byte; so the links, sizes and flags of headers and
--   footers and the payloads share one memory, but structs that overlap in part are not represented.
--   The globals are the record `Heap`; a read or write through NULL and a failed assertion are faults.
--   `BlockList` and `MmapList` are the lists, `Blocks` has `mergeBlocks`, `sfree` and `splitBlock`,
--   `Realloc` the cases of `tryMergeRealloc`, `Calls` smalloc, scalloc, srealloc and the counters;
--   `Kernel` is what `sbrk` and `mmap` answer. Loops run on fuel: the number of blocks and one more is
--   enough. The children of `BlockList` prove its operations against an ordered list, where the memory
--   may hold anything else: `Chain` says what a list in memory is, `Steps` what a change of links keeps
--   of other structs. `Tiles` says which row of blocks a heap holds, and the children of `Blocks` and
--   `Calls` prove the operations against rows.
-- - Shell/Text: the text functions of hw1/Commands.cpp on lists of bytes (`_ltrim` is `ltrim`,
--   `_parseCommandLine` is `parse_command_line`). An access out of bounds is `none`.
-- - Shell/Jobs: `JobsList` of hw1/Commands.cpp and hw1/Commands.h. What `waitpid` answers for each
--   process is an argument; job numbers start at 1 and `foreground_jobid` is `none` for -1.
-- - Shell/Dispatch: `SmallShell::CreateCommand` and the constructors of the commands.
-- - Shell/Control: the commands kill, fg and bg of hw1/Commands.cpp and the handlers of ctrl-Z and
--   ctrl-C of hw1/signals.cpp. The loop in which fg waits is a run over the answers of `waitpid` and
--   the signals to the shell, in any order.
-- - WebServer/Request: hw3/webserver-files/request.c on lists of bytes; a response is a value, and
--   what the client sends, `stat`, the time and what uninitialised buffers hold are arguments. The
--   loop over the header lines runs on fuel: one round more than there are lines is enough.
-- - Shell/Directory: chprompt, pwd, showpid, cd and quit of hw1/Commands.cpp.
-- - Shell/Timed: `TimedCmd`, `timeThis`, `killTimedCmmands`, `TimeoutCommand` and, in the parent,
--   `ExternalCommand` of hw1.
-- - Shell/Redirect: the file descriptors of `RedirectionCommand::execute` of hw1/Commands.cpp.
-- - WebServer/Options: `getargs` of hw3/webserver-files/server.c.
-- - Shell/Tail: `TailCommand::execute` of hw1/Commands.cpp on a file's bytes, where every kernel call
--   works.
-- Not modelled: of hw1 touch, the pipes and what forks or executes; the older copy of malloc_3.cpp in
-- hw4/niv_tests; of hw3 the wrappers of segel.c, the client and the CGI program.
pub mod Base
pub mod WebServer
pub mod Malloc
pub mod Shell
