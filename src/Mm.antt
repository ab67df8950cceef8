-- ===== src/Mm.antt =====
-- kern/mm: the memory management.
pub mod Pmm
pub mod Vmm
pub mod SwapFifo
