-- ===== src/Lib.antt =====
-- A verification library for the Danaos64 kernel.
--
-- The kernel keeps physical memory in a bitmap of page frames, runs tasks from a queue, and talks
-- to a text screen and to the interrupt and timer chips of a PC; a boot loader puts its segments
-- into memory. The model is of the i386 build, where `size_t` and `uintptr_t` have 32 bits, and in
-- the modules whose names start with Long of the x86_64 build, where they have 64; but the boot loader
-- is 32-bit code in both. Arithmetic that can wrap is written modulo a power of two.
--
-- The parts, with the code that each is about:
--   Bitmap        kernel/src/hal/util/bitmap.h, class bitmap
--   Fields        kernel/src/hal/util/bitmap.h, the functions on bit fields
--   PhysMem       kernel/src/hal/memory/phys_mem.h and phys_mem.cc; Frames has the functions on
--                 given frames, Any those that search, Init the start from the memory map
--   Queue         kernel/src/libk/queue.h; Fifo is the list that it promises to be
--   Task          kernel/src/main/task: task.cc, scheduler.cc (Scheduler), sync/semaphore.cc
--   Math          kernel/src/libk/math.cc
--   Strings       kernel/src/libk/string.cc; Length is its strlen
--   Cga, Console  kernel/src/devices/cga.cc and kernel/src/main/console.cc; Cga/Setup is the
--                 screen's start, with its memory mapped
--   Dispatch, Pic kernel/src/hal/interrupts/interrupts.cc and kernel/src/arch/pc/devices: pic.cc
--                 and pic.h, the class of the words and lines included
--   Exceptions    kernel/src/arch/i386/hal/interrupts: exceptions.h and exceptions.cc
--   Pit           kernel/src/arch/pc/devices/pit.cc and pit.h
--   Paging        kernel/src/arch/i386/hal/memory/paging.h and virt_mem.h
--   VirtMem       kernel/src/arch/i386/hal/memory/virt_mem.cc; Mmu has what is relied on of the
--                 processor, Mapping and Ranges the mapping functions, Boot the start,
--                 Kernel and KernelPages what the start leaves
--   Heap          kernel/src/hal/memory/memmanager.h and memmanager.cc
--   Symbols       kernel/src/arch/i386/elf/elf.h and elf.cc
--   LongSymbols   kernel/src/arch/x86_64/elf/elf.h and elf.cc
--   LongPaging    kernel/src/arch/x86_64/hal/memory/paging.h, and the indices of virt_mem.h
--   LongVirtMem   kernel/src/arch/x86_64/hal/memory/virt_mem.cc
--   MemMap        kernel/src/hal/memory: memmap.h, memmap.cc and memmap_iterator.h
--   BootInfo      kernel/src/main/kernel.cc, the loop of kernelMain over the tags
--   KernelMain    kernel/src/main/kernel.cc, kernelMain; Remap is what follows the paging
--   Gdt, Idt      kernel/src/arch/i386/hal/interrupts: gdt.h and gdt.cc, idt.h and idt.cc
--   LongGdt, LongIdt  the same files of kernel/src/arch/x86_64/hal/interrupts
--   Loader        bootloader/src/arch/i386/elf.cc and elf.h; Handover bootloader/src/main.cc,
--                 Screen bootloader/src/devices/cga.c, Numbers bootloader/src/util/math.c and the
--                 numbers of cga.c
--   LongLoader    bootloader/src/arch/x86_64/elf.cc and elf.h
-- Prelude holds what they share: tests on numbers, words, bits, memory as a function and by bytes,
-- lists, results.
-- Tests runs the theorems at concrete states.
--
-- The physical memory manager uses the bitmap, the scheduler and the semaphore use the queue, the
-- semaphore uses the scheduler, and the console uses the screen and the logarithm. A task is a
-- number for its address, and the tasks live in a store; the saved registers of a task are of any
-- type. The ports of the interrupt controller are a record of two operations, and the laws on its
-- masks assume of the data ports, outside of an initialisation of the controllers, that they give back
-- the byte last written to them.
--
-- Loops that the code does not bound have fuel. `alloc_any` with a count has a round for each frame
-- of the map and one more, since every round but the last moves past a frame. `logull` has 65
-- rounds, one more than the exponents of 2 in 64 bits. The scheduler's search for a ready task needs
-- one round more than the tasks in front of a ready one, and takes its fuel as an argument, as does
-- the search from a hint. The loops of the console's `put` have 4 and 256 rounds, for a column and a
-- row that are bytes. The loop of `map_range` has two rounds more than the whole pages of the range,
-- which is enough where the range ends below the last page; so have the loop of `init` over the pages
-- of the kernel and both loops of the 64-bit build. The loop over the tags has a round for each
-- byte of the boot information and one more, since a tag that is not empty moves it on. The boot
-- loader's `logull` has 33 rounds, one more than the exponents of 2 in 32 bits. `strlen` takes its
-- fuel as an argument, and needs one round more than the length.
--
-- The virtual memory manager uses the physical one for new page tables, and works on the memory by
-- 32-bit words; the heap uses it for its pages. The processor is a parameter: a function from the
-- memory, the page directory's address and a virtual address to a physical one or a page fault, with
-- the documented walk of the two levels of tables as its laws. In front of it stands, where a theorem
-- is about `map`, a cache of the translations that the processor keeps, which `map` never invalidates. The descriptor tables use the bit
-- fields, and the boot loader's screen the loops of the kernel's. The interrupt controller and the
-- exceptions register themselves with the dispatcher.
--
-- The boot loader hands the boot information to `kernelMain`, which takes the memory map, the
-- framebuffer and the sections from it, claims their memory, and starts the paging, the heap, the
-- screen and the symbols in turn. There the processor's translation of addresses and the byte that
-- it reads at a virtual address are parameters. The 64-bit virtual memory takes the physical memory
-- manager as the record `Allocator` of its operations.
--
-- Not modelled: inline assembly, output during start-up and locks; `init_hal` and the tasks that
-- `run_kernel` starts; the image tool, which only copies files; the headers of the Multiboot2
-- specification, which are not the repository's own.
pub mod Bitmap
pub mod BootInfo
pub mod Cga
pub mod Console
pub mod Dispatch
pub mod Exceptions
pub mod Fields
pub mod Gdt
pub mod Heap
pub mod Idt
pub mod KernelMain
pub mod Loader
pub mod LongGdt
pub mod LongIdt
pub mod LongLoader
pub mod LongPaging
pub mod LongSymbols
pub mod LongVirtMem
pub mod Math
pub mod MemMap
pub mod Paging
pub mod PhysMem
pub mod Pic
pub mod Pit
pub mod Prelude
pub mod Queue
pub mod Strings
pub mod Symbols
pub mod Task
pub mod Tests
pub mod VirtMem
