-- ===== src/Pmm.antt =====
-- The physical memory managers, lab8/kern/mm and lab2/kern/mm.
pub mod Page
pub mod FreeList
pub mod FirstFit
pub mod BestFit
