-- ===== src/Sched.antt =====
-- The scheduler, lab8/kern/schedule and lab6/kern/schedule.
pub mod Proc
pub mod Class
pub mod RunList
pub mod RoundRobin
pub mod Core
pub mod Flagged
pub mod Fifo
pub mod PrioRoundRobin
pub mod Pooled
pub mod Stride
pub mod Sjf
pub mod Timer
