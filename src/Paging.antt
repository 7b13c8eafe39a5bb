-- ===== src/Paging.antt =====
-- kernel/src/mem/paging: page table descriptors, the index of a virtual address, and the
-- operations of paging.c on four levels of tables.
pub mod Desc
pub mod Table
