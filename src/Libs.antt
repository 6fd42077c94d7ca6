-- ===== src/Libs.antt =====
-- The kernel's own library (lab8/libs).
pub mod ListEntry
pub mod SkewHeap
pub mod Hash
pub mod Number
pub mod Str
