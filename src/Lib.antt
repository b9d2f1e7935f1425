-- ===== src/Lib.antt =====
-- The KLoS kernel (src/kernel): what its data structures and their operations do.
--
-- The kernel runs on 32-bit x86. It keeps free physical pages on two stacks (src/kernel/memory.cpp),
-- maps them by page tables (src/kernel/paging.cpp), hands out kernel memory from a heap that grows
-- page by page (src/kernel/kalloc.cpp), links processes in a list that the scheduler goes round
-- (src/kernel/process.cpp), and has a descriptor table (src/kernel/gdt.cpp) and a text console
-- (src/kernel/console.cpp). The heap takes pages from the page allocator and maps them; paging takes
-- its tables from the heap.
--
-- Each part is one file, and its lemmas are in a folder of the same name, with examples in
-- Examples.antt. Functions keep the names of the source; a loop is a function of its own, named
-- `..._loop`. Globals are the fields of a record that the functions take last and give back.
--   Base: numbers, tests, lists, words of w bits, `&` and `|`, loops and results.
--   Memory: the two stacks of free pages, as byte addresses into a memory of words.
--   Heap: the headers of the free list by their addresses, `kernel_heap_free` and
--     `kernel_heap_alloc`. What the heap calls, `mm_page_allocate` and `pg_map`, is a parameter
--     (PageSource); `pg_map` may call the heap again where the kernel has no page table for the
--     address, and the theorem about `kbrk` is for the other case. Heap/Search is the search that `kalloc` and `kalloc_page` share, and Heap/Whole,
--     Heap/PageAlloc and Heap/PageFree are about whole pages.
--   Process: process structures by their addresses, the root, the current process, the next pid.
--   Paging: pages of words by their virtual addresses, the `pg_table_t` structures, cr3 and the
--     interrupt flag. What paging calls of the heap is a parameter (PageHeap). Paging/Fault is
--     `pg_resolve_fault`, over page tables, processes and free pages together; the words that it
--     copies are kept by physical page, apart from the words of the page tables.
--   Gdt: the descriptors and their number; a write past the array gives `none`.
--   Interrupt: the interrupt descriptors, with the routines known by their addresses, and in
--     Interrupt/Handlers the handlers and the system calls.
--   Exceptions: the handler of processor exceptions (src/kernel/exceptions.cpp), over the console, the
--     processes and the page tables.
--   Entry: `main` and `schedule` of src/kernel/main.cpp, over the states of the console, the tables, the
--     processes and the disk driver together. Paging, the free pages and the heap call each other;
--     here they are one state with their operations (Parts). Base/Allocator says what the clients of the
--     heap rely on, and Entry/Costs how much of the heap each call of `main` takes.
--   Debug: the reports of src/kernel/debug.cpp, over the words of memory.
--   Pci, Symbol: the reading of configuration words, and the search for the name of an address.
--   User: the program of src/apps/helloworld.c, over its memory and the system calls; the theorem
--     takes the write call of Interrupt/Handlers.
--   Ata: the disk driver (src/kernel/ata.cpp), over a machine whose ports may answer anything; the
--     theorem about the list of devices takes the answers of the two controllers as given.
--   Ext2: the reader of src/experimental/filesystems/src, over a device known by its bytes,
--     and in Ext2/Listing the listing of a directory in main.cpp.
--   Console: the text memory by offset, the cursor, and the writes to the ports of the controller.
--
-- Loops. Where a loop of the source has no bound of its own, the function takes fuel, and `none` or
-- `out_of_fuel` says that it ran out. The theorems say how much is enough: as many rounds as the
-- list has blocks, processes, devices or symbols, one more than a disk stays busy, and eight rounds
-- for a tab. Reading a list through NULL is `fault`.
--
-- Left out: assembly, inline assembly (the stack frames of interrupts, flushing the TLB) but for the
-- registers that `pr_resume` loads, the indirect blocks of ext2, which the source does not read, and the
-- other programs under src/experimental.
pub mod Base
pub mod Memory
pub mod Process
pub mod Heap
pub mod Paging
pub mod Gdt
pub mod Console
pub mod Interrupt
pub mod Ata
pub mod Ext2
pub mod Debug
pub mod Exceptions
pub mod Entry
pub mod Pci
pub mod Symbol
pub mod User
