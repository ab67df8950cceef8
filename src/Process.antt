-- ===== src/Process.antt =====
-- kern/process: processes.
pub mod Pids
pub mod Family
pub mod State
pub mod Table
pub mod Resources
mod Sample
pub mod Fork
pub mod Exit
pub mod Wait
mod Tests
