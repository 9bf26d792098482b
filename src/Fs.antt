-- ===== src/Fs.antt =====
-- The file system of lab8/kern/fs: the table of open files and the bitmap of SFS.
pub mod File
pub mod Process
pub mod Bitmap
