-- ===== src/Schedule.antt =====
-- kern/schedule: the timers and the scheduler.
pub mod Timers
pub mod Sched
pub mod Trees
pub mod Sleep
pub mod Stride
pub mod Cfs
