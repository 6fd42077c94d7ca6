-- ===== src/Mm.antt =====
-- Memory management (lab8/kern/mm, and parts of lab2 and lab3).
pub mod DefaultPmm
pub mod BestFit
pub mod Vmm
pub mod Swap
