-- ===== src/Libs.antt =====
-- The kernel's support library, lab8/libs.
pub mod LinkedList
pub mod SkewHeap
pub mod Strings
pub mod Hash
pub mod Errors
