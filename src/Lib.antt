-- ===== src/Lib.antt =====
-- The verification library of Skylight, a 64-bit operating system: its kernel under kernel/src, and
-- the frame Prism, a program that runs on it, under apps/frames/prism/src.
--
-- The kernel maps memory in four levels of page tables and serves its own allocations from a heap
-- that lies in mapped pages, whose frames the page frame allocator keeps in a list of sections:
-- heap_initialize and heap_expand call paging_map_page for each new page. Bytes from the keyboard
-- arrive in an interrupt handler, whose vector the interrupt table gives out and whose line the
-- interrupt controllers mask and redirect; the handler turns them into key codes and leaves these
-- in the page of the process that took the keyboard. Prism reads them there, keeps the state of the
-- lock and shift keys, and calls its listeners. A debug shell on the serial port runs commands, and
-- the drivers reach devices through the configuration space of PCI.
--
-- Files and what they model:
--   Paging/Desc       kernel/src/mem/paging/paging.h, the paging_desc_* and paging_indexer_* functions
--   Paging/Table      kernel/src/mem/paging/paging.c; Keep and Translate hold its proofs
--   Heap              kernel/src/mem/heap/allocator.c; Chain is the heap as a list of blocks and that
--                     the headers in memory represent it, Valid is the invariant of the whole heap
--   Pmm               kernel/src/mem/pmm/pmm.c and pfa.c: the sections of physical memory; Pages, Pools
--                     and Start hold the operations, Chain says that the nodes hold a list of regions,
--                     Kinds what the regions say about each address, Alloc and Free the proofs
--   Ps2               kernel/src/iodev/hid/ps2/ps2_kbd.c, with hid_register_keystroke of
--                     kernel/src/iodev/hid/hid.c; Scancodes is the switch of ps2_translate_keycode
--   Hid               Keys is the enum of kernel/src/iodev/hid/kbd.h, KbMan is
--                     kernel/src/proc/calls/handlers/kb_man.c; Held is its page as a list of keys,
--                     Tables takes Paging/Table for the page tables that it changes
--   Kbd               apps/frames/prism/src/kbd/kbd.c; Tables is tables.c
--   Interrupts        Idt is kernel/src/cpu/interrupts/idt.c, Controllers is
--                     kernel/src/iodev/8259/pic.c and kernel/src/iodev/apic/ioapic.c
--   Pci               kernel/src/iodev/pci/confrw.c and find.c
--   Shell             kernel/src/iodev/uart/shell.c
--   Tasks             kernel/src/proc/task/task.c
--   Acpi              kernel/src/iodev/acpi/tables/tables.c and tables.h
--   Elf               kernel/src/proc/loader/elf.c and elf.h; Segment and Program hold the proofs, and
--                     Program the table of the segments
--   Calls             kernel/src/proc/calls/handlers: pmap.c, punmap.c, fb_req.c and rdinfo.c, with
--                     framebuffer_info_t of kernel/src/boot/protocol.h; Map and Frame hold the proofs
--   Gdt               kernel/src/cpu/gdt/gdt.c and gdt.h
--   Conv              kernel/src/extra/itoa.c
--   Strings           kernel/src/extra/std/strlen.c, strcpy.c, strcat.c, strcmp.c, strncmp.c
--                     and memcmp.c
--   Bits, Prelude     numbers as bits, tests, lists and the monad that the models share
--   Examples          concrete inputs at which the theorems apply
--
-- A definition has the name of its C function, less a prefix that its module already says. Memory
-- is a function of the address, a machine word is a number below 2 ^ 64, and what wraps around in
-- the source is reduced by 2 ^ 64. Handlers return the list of what they do to devices beside their
-- next state.
--
-- Fuel: map_page calls itself for the tables that it makes, so its fuel bounds how deep these calls
-- nest; where the tables exist one unit is enough. In malloc, `steps` bounds the walk over the
-- list, for which the number of the blocks is enough, and `fuel` bounds the calls of malloc by
-- itself, of which there are at most three. The `fuel` of utoa and itoa bounds the second loop,
-- which writes at most the 64 digits of a 64-bit number to the base 2. The `fuel` of the page frame
-- allocator bounds each walk over the sections, for which one more than the number of the sections
-- is enough to allocate a page and two more to free one. The string functions take one step for
-- each character and one for the 0 behind the last. The search for an ACPI table takes one step
-- more than the root table has entries. In the ELF loader `steps` bounds the rounds over the
-- program table, one more than it has entries where no segment overwrites the header of the file,
-- and `fuel` those that copy into mapped pages, of which some segments need more than any number.
-- The `steps` of the system calls bound the loops over the pages of the frame buffer, for which one
-- more than the number of its pages is enough.
--
-- Parameters: the page frame allocator and its pools where other parts call them, the mapping of a
-- page where the heap needs one, the building of the PCI cache, the table of the interrupt stubs,
-- the id and the tables of the task that makes a system call, what copying and clearing do to the
-- data of heap blocks, and the memory that the parts of a new task get.
--
-- Not modelled: the exchange of commands with the PS/2 controller; kbd_init of Prism; the remapping
-- and the end of interrupt of the PICs; the list of IOAPICs; what the commands of the shell print;
-- the page table and the stack of a new task, and the switch to it; the task state segment, timers,
-- AHCI, the boot protocol, the least number of itoa, the rest of the C libraries, and drawing in
-- Prism. What listeners do when they are called is not modelled either.
pub mod Prelude
pub mod Bits
pub mod Paging
pub mod Pmm
pub mod Heap
pub mod Hid
pub mod Ps2
pub mod Kbd
pub mod Interrupts
pub mod Pci
pub mod Shell
pub mod Tasks
pub mod Conv
pub mod Strings
pub mod Acpi
pub mod Elf
pub mod Gdt
pub mod Calls
pub mod Examples
