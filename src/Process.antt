-- ===== src/Process.antt =====
-- Processes (lab5/kern/process/proc.c): the table of processes and the life of one.
pub mod Pid
pub mod Family
pub mod Table
pub mod Fork
pub mod Exit
mod Tests
