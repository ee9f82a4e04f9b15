-- ===== src/Lib.antt =====
-- Custom-OS-Kernel: a preemptive x86 kernel and its user libraries.
--
-- Parts of the program. kern/data_structures holds the containers: a circular buffer of pointers,
-- an intrusive doubly linked list, a queue and a stack over the list, and a hash table of lists.
-- The scheduler keeps its threads in pools made of these lists, the locks keep their waiters in
-- them, the keyboard driver keeps keystrokes in the circular buffer, and the page directory keeps
-- the frames of a process and the mappings of a batch in lists.
--
-- Files:
--   Base, with Base/Tests, Base/Lists, Base/Count and Base/Int: numbers, Boolean tests, lists
--     measured by native numbers, and C's signed status codes, for all the other files.
--   Heap: the memory of list nodes (`ll_node_t` of kern/inc/ll.h) as a partial function on
--     addresses, and commands that load, store, allocate, free and assert. Heap/Ends: a command
--     ends. Heap/Dll: doubly linked segments. Heap/Rules: what each command does to a segment.
--   CircBuf: kern/data_structures/circ_buffer.c. CircBuf/Inv: the representation invariant.
--     CircBuf/Spec: a bounded queue with undo. CircBuf/Refine: the buffer implements it.
--   LinkedList: kern/data_structures/ll.c, functions without a loop; LinkedList/Loops: those
--     that walk along the list. LinkedList/Inv: well-formed lists. LinkedList/Link, Unlink,
--     Remove, Search, Walk, Behind and Sorted: each operation on well-formed lists.
--   Queue: kern/data_structures/queue.c and stack.c. Queue/Order: the order of the words.
--   HashTable: kern/data_structures/ht.c. HashTable/Entries: buckets. HashTable/Map: the finite
--     map.
--   Console: kern/console.c. Console/Inv: where the cursor is. Console/Put: `putbyte` against a
--     table of moves and drawings. Console/Screen: which bytes change. Console/Cells: what each
--     byte of the screen is after `putbyte`. Console/Runs: strings and clearing.
--   Keyboard: kern/keyboard.c, and the handler of kern/handlers/peripheral_handlers.c.
--     Keyboard/Lines: keystrokes edit the words of the buffer.
--   PageDirectory: the mappings of kern/virtual_mem_mgmt/page_directory.c. PageDirectory/Bits:
--     flags. PageDirectory/Inv, Create and Map: mapping and unmapping one page.
--     PageDirectory/Commit, Batch and Whole: the batch. PageDirectory/Access: permissions, and
--     an aborted batch. PageDirectory/Frames: the frames of a process. PageDirectory/Clear:
--     clearing and destroying a directory. PageDirectory/Kernel: the mappings of the kernel and
--     new directories, with what they map in Kernel/Direct.
--   PageDirectory/Copy: copying an address space. Copy/Page, Copy/Entries, Copy/Directory and
--     Copy/Rounds: what each loop copies. Copy/Lookup and Copy/Mappings: what the copy maps.
--     Copy/Rollback: the copy where memory runs out.
--   MemSection: kern/virtual_mem_mgmt/mem_section.c. MemSection/Bounds: what its searches find.
--   FrameManager: loops of kern/virtual_mem_mgmt/frame_manager.c. FrameManager/Bins: the bin of
--     a request. FrameManager/Carve: the frames of user memory. FrameManager/Ops and Dealloc:
--     its operations. FrameManager/Free: the addresses that free frames hold.
--     FrameManager/Split, Take and Alloc: what splitting, taking and allocating do to them.
--     FrameManager/Init: what is free at the start.
--   VirtualMem: kern/virtual_mem_mgmt/virtual_mem_mgmt.c, with the removal of pages in
--     VirtualMem/Remove and the copy for a fork in VirtualMem/Copy. VirtualMem/Refuse: requests
--     that are refused at once. VirtualMem/Calls: the system calls of
--     kern/handlers/mem_mgmt_handlers.c.
--   Semaphore: kern/locks/sem.c. Semaphore/Fair: the steps of waiters and signals.
--   RwLock: kern/locks/rwlock.c. RwLock/Exclusion: the locks that granted calls reach.
--   Mutex: kern/locks/mutex.c and kern/locks/sched_mutex.c. Mutex/Exclusion: the mutexes that
--     steps of threads reach.
--   Tcb: kern/scheduler/tcb.c. Tcb/Stack: what a loaded stack holds.
--   Pcb: counts and statuses of kern/scheduler/pcb.c. Pcb/Statuses: in which order they are
--     collected.
--   TcbPool: kern/scheduler/tcb_pool.c, with its tables in TcbPool/Tables, its operations in
--     TcbPool/Ops and the reaper in TcbPool/Reaper. TcbPool/Lists: the lists of a pool.
--     TcbPool/Moves: a thread that its pool holds.
--   Scheduler: kern/scheduler/scheduler.c, with new threads in Scheduler/Add, the calls of
--     kern/scheduler/thr_helpers.c in Scheduler/Helpers, and kern/dispatcher/dispatcher.c and
--     the timer of kern/handlers/peripheral_handlers.c in Scheduler/Switch. Scheduler/Inv: where
--     each thread stands. Scheduler/Keeps, Steps, Reaper, Wakeup, Turns and Robin: each call
--     keeps that. Scheduler/Reach: sequences of calls and ticks. Scheduler/Yield: yielding to a
--     thread.
--   ThrMgmt: swexn of kern/handlers/thr_mgmt_handlers.c. ThrMgmt/Safety: what it lets a program
--     do. ThrMgmt/Calls: the other system calls of that file.
--   Exceptions: kern/handlers/exception_handlers.c. Exceptions/Frame and Exceptions/Enter: how a
--     handler starts. Exceptions/Faults: how exceptions end.
--   UserList: user/libthread/ll.c. UserList/Remove: which node is removed.
--   UserThread: user/libthread/thread.c. UserThread/Claim: what `thr_create` finds.
--     UserThread/Stacks, Layout and Race: where the stacks of threads lie. UserThread/Join: who
--     gets the status of a thread.
--
-- Conventions. NULL is the address 0; a pointer to a structure that the caller owns is an Option
-- whose `none` is NULL, and the new pointee comes back beside the status. A value stored through an
-- output pointer is an Option result, and an argument `wanted` says that the pointer is not NULL.
-- Status codes are signed. ASSERT is taken as enabled: where it fails the command ends in `panic`.
-- A load, store or free of an address that holds no node ends in `fault`. malloc is a parameter: the
-- address, or the function, that it answers with. uint32_t keeps its wrap-around.
-- The function that ll_foreach calls leaves the nodes alone, and its calls are what is observed.
-- The contracts of console.c are taken as disabled, and the cursor registers as bytes that read
-- back what was written. A page directory reaches its tables by their base; its lists are the
-- values that its linked lists hold. A bucket of a hash table is the entries that its linked list
-- holds. The loop that carves frames of one bin runs for at most one round more than there are
-- pages; each round takes a page at least. The calls of a semaphore or of a readers-writer lock
-- run under its mutex, so they are steps one after the other; their counts are taken as
-- unbounded. A thread that waits at a semaphore is given a node of the queue by malloc, or not. A
-- pool of threads is the nodes that its list holds, by the addresses of the threads. A call with
-- the scheduler locked is one step; a run that unlinks a node from a list that does not hold it,
-- loads through NULL or panics is `none`. The wakeup runs for at most one round more than there
-- are sleepers; each round wakes one. Splitting and joining frames run for at most one round more
-- than there are bins; each round is a bin further up. Removing pages takes at most 2^20 rounds,
-- a page each, since the page at 0 is a panic. What pages hold is a function from the base of a
-- frame; flushes of the TLB are left out. A call of the user thread library holds its locks for
-- the whole of a step; UserThread/Race and UserThread/Join order the steps of several calls.
--
-- Fuel. A walk along a list runs for at most `size + 1` rounds and ends in `hang` where they are used
-- up; on well-formed lists that never happens, since each theorem says that the command is done.
--
-- Not modelled: the start of the scheduler, the other system call handlers, the loader, and the locks
-- and the automatic stack of the user libraries; assembly stubs, port input and output, and the
-- interrupt tables; the macros of vq_challenge/variable_queue.h, which are empty.
pub mod Base
pub mod CircBuf
pub mod Console
pub mod Exceptions
pub mod FrameManager
pub mod HashTable
pub mod Heap
pub mod Keyboard
pub mod LinkedList
pub mod MemSection
pub mod Mutex
pub mod PageDirectory
pub mod Pcb
pub mod Queue
pub mod RwLock
pub mod Scheduler
pub mod Semaphore
pub mod Tcb
pub mod TcbPool
pub mod ThrMgmt
pub mod UserList
pub mod UserThread
pub mod VirtualMem
