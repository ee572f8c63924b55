-- ===== src/Pmm.antt =====
-- The physical memory manager, OSkernel/kernel/src/pmm.c and OSkernel/kernel/include/pmm.h.
pub mod Layout
pub mod Page
pub mod Heap
pub mod History
pub mod Faults
mod Tests
