-- ===== src/Lib.antt =====
-- PlanetoidOS: the memory management, the tasks and the interrupts of a kernel for AArch64.
--
-- The program hands out physical frames from a bitmap (kernel/memory/physical_memory.cpp), maps
-- virtual pages to frames in three levels of translation tables whose pages are such frames
-- (kernel/memory/mmu.cpp), hands out virtual pages that it backs with frames
-- (kernel/memory/virtual_memory.cpp), runs tasks in a circular list (kernel/core/task/scheduler.cpp), lets
-- them wait in queues (wait_queue.cpp) and exclude each other (mutex.cpp), and dispatches interrupts
-- to registered handlers (kernel/core/interrupts.cpp); the timer's handler
-- (kernel/arch/aarch64/timer.cpp) wakes sleepers and preempts the running task. The heap
-- (kernel/memory/kernel_heap.cpp) cuts virtual pages into blocks, and the log (kernel/core/log.cpp) formats
-- what the exception handlers (kernel/arch/aarch64/exception.cpp) report.
--
-- Files:
--   Base              shared names, words of 64 bits, bits, memory as a function, counted loops
--   Bitmap            the one-bit marks of physical_memory.cpp
--   MemoryMap         kernel/memory/memory_map.hpp and memory_map.cpp
--   PhysicalMemory    kernel/memory/physical_memory.cpp: init, allocate_frame, free_frame
--   Descriptor        the descriptors and indices of kernel/memory/mmu.cpp, attributes of mmu.hpp
--   Mmu               map_page, unmap_page, get_physical_address and the tables behind them
--   VirtualMemory     kernel/memory/virtual_memory.cpp: one page, a run of pages, the search for one, the
--                     rollback, and any sequence of calls
--   KernelHeap        kernel/memory/kernel_heap.cpp: kmalloc, kfree, the list of blocks, and blocks of more
--                     than a page
--   Log               kernel/core/log.cpp: the formatter, info and error
--   Task              kernel/core/task/task.hpp
--   Scheduler         kernel/core/task/scheduler.cpp, but for init and preempt
--   Preempt           Scheduler::preempt, and exception_context of kernel/arch/aarch64/exception.hpp
--   Running           which tasks run, over every order of those calls
--   WaitQueue         kernel/core/task/wait_queue.cpp
--   Mutex             kernel/core/task/mutex.cpp
--   Interrupts        kernel/core/interrupts.cpp
--   Gic               kernel/arch/aarch64/gic.cpp: the writes to the interrupt controller
--   Timer             kernel/arch/aarch64/timer.cpp
--   Exception         kernel/arch/aarch64/exception.cpp
--   Creation          kernel/core/task/task.cpp
--   Startup           Scheduler::init and get_current_task
--   KernelMain        kernel_main of kernel/kernel.cpp, and the memory that it starts
--   BootTables        MMU::init of kernel/memory/mmu.cpp: the entries, the tree and the identity mapping
--   Examples          small concrete states
--
-- The state of a component is a record, an operation is a function from the state before to its
-- result and the state after, and a pointer is the number of its address, null being 0. Definitions
-- keep the names of the source. A uint64_t is a natural number; sums, differences and products wrap
-- around at 2^64 where the source's may (add64, sub64, mul64). Memory is a function from an address
-- to what stands there: bytes of a bitmap, words of a table, tasks.
--
-- The walks of the circular list and wake_all take fuel, one unit for each round. The theorems
-- about them say that more fuel than the list has tasks is enough. The walks of the heap's list of
-- blocks take fuel too, and more than there are blocks is enough. The loop of format_string has one unit more
-- than its format has characters. The loops that take a number apart have the size of their local array for fuel, which is
-- enough for every word. A function that switches tasks says so in its outcome: the rest of its caller
-- runs when the task is resumed. Which registers task_switch saves and loads is not modelled. An operation is one
-- step, also terminate_current and block_current_task, which do not mask interrupts themselves. The headers of
-- the heap's blocks are cells apart from tables and bitmaps, so kfree is modelled for pointers that
-- kmalloc gave.
--
-- The platform macro and the linker's symbols are the record Platform. The translation tables are
-- read and written through the identity mapping, so a table's pointer is its physical address.
--
-- Not modelled: the serial port and the LED, which are device I/O in C, the test of the Raspberry Pi in
-- kernel/kernel_pi5.cpp, the bodies of the two tasks of kernel/kernel.cpp, the loop of halt, and all
-- assembly. Calls of the log outside the exception handlers are left out but for those of kernel_main;
-- calls of kfree by the scheduler are recorded in its state.
pub mod Base
pub mod Bitmap
pub mod MemoryMap
pub mod PhysicalMemory
pub mod Descriptor
pub mod Mmu
pub mod VirtualMemory
pub mod KernelHeap
pub mod Log
pub mod Gic
pub mod Timer
pub mod Exception
pub mod Creation
pub mod Startup
pub mod KernelMain
pub mod BootTables
pub mod Task
pub mod Scheduler
pub mod Preempt
pub mod WaitQueue
pub mod Running
pub mod Mutex
pub mod Interrupts
pub mod Examples
