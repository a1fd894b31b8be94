-- ===== src/Lib.antt =====
-- EGOS, the teaching operating system: its block stores, its processes and messages, its servers
-- for blocks and files, its simulated TLB, and the queues, the map and the formatted printing of
-- its library.
--
-- A block store (h/egos/block_store.h) is an object with methods that read and write blocks by
-- inode number and offset. A layer is a block store on top of others. The program stacks them: a
-- disk, a partition of it, a cache, a file system, a layer that checks or counts.
--
-- Base is the part that the files share: Base/Tests has Boolean tests on numbers, Base/Lists arrays
-- as lists, Base/Int the type `int` and the conversions to it. `u32_mod` is 2^32.
--
-- Block/Store is the interface, a record of the methods over a type of states, with two things that
-- the theorems are about: a view, which block stands at each inode number and offset, and `IsDisk`,
-- the contract of block_store.h. Block/Client is a client that makes a sequence of calls. Then one
-- file per layer has the state as a record and a function per method, which takes the state and
-- returns the result of the C function and the new state, and a layer's methods call those of a
-- parameter `D`, the store below. The files below it have the theorems:
-- - Block/Ram: block/ramdisk.c
-- - Block/Map: block/mapdisk.c
-- - Block/Part: block/partdisk.c. Part/Layout: where the partitions lie.
-- - Block/Combine: block/combinedisk.c. Combine/Locate: the search for the store of an inode.
-- - Block/Raid0: block/raid0disk.c
-- - Block/Raid1: block/raid1disk.c
-- - Block/Cache: what block/clockdisk.c and block/wtclockdisk.c have in common, the slots and the
--   clock hand. Cache/Lookup: the search; Cache/Hand: the walk of the hand.
-- - Block/Clock: block/clockdisk.c. Clock/Coherent: the invariant and what a cache stands for;
--   Clock/Laws: reads and writes; Clock/Sync: sync and release.
-- - Block/WtClock: block/wtclockdisk.c. WtClock/Stored: the slots; WtClock/Laws: reads and writes.
-- - Block/Stat, Block/Debug, Block/Check: block/statdisk.c, block/debugdisk.c, block/checkdisk.c
-- - Block/Tree: block/treedisk.c and block/treedisk.h, the layout and the free list; Tree/File: sizes
--   and freeing; Tree/Access: reading and writing; Tree/Create: a new file system; Tree/Levels: the
--   height of a tree; Tree/Reading: what a file holds; Tree/Freelist: the first free list; Tree/Refs
--   and Tree/Alloc: taking a block from it.
-- Block/Tests runs the layers on small disks.
--
-- System/Queue is lib/queue.c: a linked list in an explicit memory. System/Queue/Chain is about the
-- list in the memory, System/Queue/Fifo about each operation, System/Queue/Runs about sequences of
-- them. The memory gives out a new address each time. System/Map is lib/map.c; System/Map/Laws:
-- look-up and insertion.
--
-- System/RamFile is grass/ramfilesvr.c (the types are in h/egos/file.h): the list of files and what
-- the handlers use. RamFile/Requests: a handler for each request, which gives the reply and the new
-- state. RamFile/Safety and RamFile/Private: who may change and see what; RamFile/Content and
-- RamFile/Sizes: the bytes. A write whose end wraps at 64 bits and that would copy outside of the
-- contents gives `none`.
--
-- System/Process is grass/process.c, built with HW_MLFQ: the data types, the table of processes,
-- free processes, run queues and waking up. Process/Messages: proc_send, and proc_recv before and
-- after its proc_yield; Process/Death: proc_term, proc_zap, proc_kill; Process/Schedule: a round of
-- the loop of proc_yield, proc_create_uid, the clock's interrupt, proc_initialize; Process/Running:
-- what the running process sets in its entry, also in grass/procsys.c and grass/spawnsvr.c. The
-- state of the kernel is one record, a pointer to a process its index, and an operation whose
-- assert fails gives `none`. A switch of contexts is the change of the current process; the part of
-- proc_recv behind its proc_yield is an operation of its own. Process/Invariant is the invariant;
-- Invariant/Moves and Invariant/Switches are about single changes, and the other files below it
-- about the operations: Keeping (what they leave), Waking, Sending, Dying, Zapping, Choosing,
-- Yielding, Deciding, Calling, Starting, Booting. Process/Runs is about sequences of calls,
-- Process/Mail about a message on its way, Process/Clock about time slices.
--
-- System/Tlb is earth/tlb.c, with the protection of pages: a copy from a page that may not be read
-- gives `none`. Tlb/Laws: flushing; Tlb/Mapping: mapping, and flushing then.
--
-- System/Tests has small runs.
--
-- Library/MemChan is lib/memchan.c: the buffer, which starts without bytes and grows by `realloc`,
-- and the printing of integers. MemChan/Format is mc_vprintf, with the arguments as a list of
-- values of their types (a `va_arg` of another type gives `none`), MemChan/Float the printing of a
-- `double` over a record of the operations on it. MemChan/Append: the string that a channel holds;
-- MemChan/Numbers and MemChan/Signed: numerals; MemChan/Fields: padding; MemChan/Directive,
-- MemChan/Pieces and MemChan/Printing: whole formats. Library/Sort is lib/qsort.c and Sort/Sorted
-- is about its result. Library/Fill is memset of lib/string.c, over a memory that is a function of
-- the address, and Fill/Phases is about its three phases. Library/Tests has small runs.
--
-- Server/Blocks is apps/blocksvr.c, over the block store at the top of its stack, with the
-- procedures of lib/block.c that call it. Server/Files is apps/bfs.c, a server for files over the
-- block server: the state, and the array of control blocks in inode 0; Files/Requests: a handler
-- for each request, which gives the replies that it sends and the new state; Files/Serve: the
-- dispatch and the start. The layout of a control block in memory is a parameter. Files/Bytes: the
-- bytes of a file on its blocks; Files/Spans and Files/Reading: reads; Files/Storing, Files/Writing
-- and Files/Stored: writes; Files/Keeping and Files/Strangers: who may change a control block.
-- Server/Tests has small runs.
--
-- Loops are recursions on the list they go over, but for these, on fuel: the walk of the clock hand
-- has one round more than there are slots, the count of a tree's levels makes its test five times
-- at most (a shift by 32 is 0), the count in `treedisk_free_file` takes its fuel as an argument,
-- the set-up of the free list has as many rounds as there are blocks, the loop of mc_vprintf as
-- many as the format has characters, the calls of qsort are as deep as the array is long at most,
-- and the loop over digits as many as its buffer has bytes. Loops over the table of processes count
-- down from its 100. Cache/Hand and Tree/Levels are about the first three, MemChan/Printing about
-- the last but one.
--
-- Unsigned integers are numbers, with `% u32_mod` where the source can wrap; `size_t` has 64 bits.
-- Blocks are of any type, but in Block/Tree, where a block is its 256 words of 32 bits. The stores
-- below one layer do not share state, and an array of stores has stores of one kind. An access past
-- an array, which C does not define, is -1 or `none` or has no effect, as the comment at the place
-- says, and the theorems have invariants that exclude it. The end of the program by `panic` or
-- `exit` is `none`.
--
-- Not modelled: memory allocation, and the `release` methods that only free memory; what is
-- printed; the other block stores, which do I/O or are unfinished; page faults but for the frame
-- that they take, stacks and contexts of processes; the other servers and programs, which do I/O or
-- pass messages on; and the rest of the system (grass/, earth/, lib/, apps/).
pub mod Base
pub mod Block
pub mod System
pub mod Library
pub mod Server
