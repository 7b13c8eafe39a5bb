-- ===== src/Interrupts.antt =====
-- kernel/src/cpu/interrupts/idt.c and the interrupt controllers, kernel/src/iodev/8259/pic.c and
-- kernel/src/iodev/apic/ioapic.c.
pub mod Idt
pub mod Controllers
