-- ===== src/Tests.antt =====
-- The theorems at concrete inputs, and runs of the definitions.
mod FirstFit
mod Heaps
mod Sched
mod Files
mod Strings
mod Bitmap
mod Classes
mod Timers
mod Sync
mod Pools
mod Areas
mod Processes
