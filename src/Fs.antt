-- ===== src/Fs.antt =====
-- The file system (lab8/kern/fs).
pub mod Iobuf
pub mod File
pub mod Bitmap
