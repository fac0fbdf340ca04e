-- ===== src/Lib.antt =====
-- KessOS Paranoid Edition: the kernel (kernel/src) and its boot loader (gnu-efi/bootloader/main.c).
--
-- The boot loader loads kernel.elf and a font, lets the user choose in a menu, and calls the kernel
-- with the frame buffer, the font, the firmware's memory map, the RSDP and a flag. The kernel's
-- `init` loads a GDT and an IDT, sets up paging from the memory map, reads the ACPI tables, and
-- programs the interrupt controllers and the timer; `log`, which every part calls, draws text on the
-- frame buffer. The parts share the machine's memory, the I/O ports and the global `kern_flags`.
--
-- The files:
--   Base: names and lemmas that all parts share: tests on numbers, casts to C's widths, and laws of
--     the bit operations.
--   Memory: bytes by address, with the little-endian accesses of compiled C, and `memzero` of
--     kernel/src/util/impl/mem.c.
--   Outcome: a command returns, halts the machine, faults, or runs out of fuel; `Ensures` is total
--     correctness of one.
--   Log: the arguments of `log` (kernel/src/debug/log.h), which Kernel.Console renders.
--   MemoryMap: kernel/src/arch/memory/memory.h and impl/memory.c; Size for what `getMemSize` adds up.
--   Vmm: kernel/src/arch/memory/impl/vmm.c, the page allocator, `map_page`, `unmap_page` and
--     `vmm_init` over the tables in memory. Paging says when tables are in shape, through a plan of
--     which page is a table of which level, and how the CPU walks them; Apart and MapApart, what
--     drawing leaves as it is.
--   Strings: kernel/src/util/impl/string.c. The static buffers are memories of their own.
--   Ports: kernel/src/arch/io/impl/io.c, over a bus that is a parameter.
--   Pic: kernel/src/arch/io/impl/legacy-pic.c; Device states what the 8259A documents.
--   Pit: kernel/src/arch/timer/impl/pit.c; Device states what the 8254 documents, and `pit_sleep` runs
--     over a schedule of loop tests and timer interrupts.
--   Pci: kernel/src/arch/pci/impl/pci.c, over a bus with configuration mechanism 1.
--   Idt: kernel/src/interrupts/impl: the descriptor table, as the CPU reads it, and the report of a
--     page fault's code.
--   Screen: kernel/src/drivers/video/impl/FrameBuffer.c, pixels as words of memory; Room says where text
--     is drawn while lines are left below the cursor, Overrun where it is at the end of the screen.
--   Layout: how the compiler lays structs out. Acpi.Tables, Loader.Structs and Kernel.Structs
--     translate the structs of the headers.
--   Acpi: kernel/src/firmware/acpi/impl/acpi.c, over tables in memory; Tables is tables.h,
--     Apart what drawing leaves as it is.
--   Kernel: kernel/src/kernel.c. Console is its `log`; Terminal is how Vmm, Acpi and Start call it, with
--     its canvas and buffers as a part of their states and its pixels in their memory, and Drawing and
--     Line what such calls do. Format and Numeral are the text of a call. Start is `init` and `_start`
--     over a machine that has the state of every part; Cpu has the assembly that loads the GDT and that
--     sets FLAGS, and Panic the handlers of kernel/src/interrupts/asm/exceptions.asm.
--   Loader: gnu-efi/bootloader/main.c. Firmware lists the services of UEFI and of the gnu-efi library
--     that it calls, as a parameter; Load is `initGOP`, `loadFile`, `loadFont` and the loop over the
--     segments, Boot the menu over the firmware's keyboard and `efi_main`, Draw the drawing of the menu.
--     Loader itself has `memcmp`, `strlen`, the ELF and font tests, the menu over a list of keys and the
--     search for the RSDP.
--
-- Fuel: `map_page` calls itself for the page of a new table; its fuel is one more than the pages that
-- the allocator has left, which is enough. The digit loops take 11 and 9 rounds, one more than the
-- digits of 32 bits. `strlen` takes a round more than the text has bytes. The menu takes a round for each
-- key that is read, and runs out of fuel where it would wait for another. `pit_sleep` runs over a
-- schedule in the same way. The other loops are counted.
--
-- Numbers: an unsigned type of w bits keeps its wrap-around as `% 2 ^ w`. Addresses of single bytes
-- within one access do not wrap. `char` is signed where the compiler's is.
--
-- Where a service of the firmware sets a pointer and the loader ignores its status, the model takes any
-- value of the pointer. A null pointer is address 0, which may be read.
--
-- Not modelled: the insides of the UEFI services and of the gnu-efi library, a copy of another project
-- that only the boot loader calls: its calls are the parameter of Loader.Firmware, and of its headers
-- only the structs that the loader reads are translated. What irq0_handler does to al and, by its
-- retq, to the stack: an interrupt of the timer only counts a tick. The idle loop at the end of
-- `_start`. The structs of the frame buffer and of the font lie apart from the memory. The
-- calls of `log` in pit.c and exception_handling.c are a journal: the first draws nothing, and the second
-- function is never called. The CPU's own walk of the tables for each access is not modelled: the
-- kernel's accesses are to physical addresses, which are the virtual ones in the 6 GiB that `vmm_init`
-- maps. Behind `load_pml4` a frame buffer or a font beyond them is a fault (Vmm), and tables of ACPI
-- beyond them are a page fault that halts (Kernel.Start).
pub mod Base
pub mod Memory
pub mod Outcome
pub mod Log
pub mod Layout
pub mod MemoryMap
pub mod Vmm
pub mod Strings
pub mod Ports
pub mod Pic
pub mod Pit
pub mod Pci
pub mod Idt
pub mod Screen
pub mod Acpi
pub mod Loader
pub mod Kernel
