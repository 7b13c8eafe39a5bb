-- ===== src/Hid.antt =====
-- kernel/src/iodev/hid and kernel/src/proc/calls/handlers/kb_man.c: key codes, and the buffer page
-- in which the kernel leaves the keys for the process that took the keyboard.
pub mod Keys
pub mod KbMan
