-- ===== src/Fs.antt =====
-- The buffers and bitmaps under the file system of lab8/kern/fs.
pub mod Iobuf
pub mod Bitmap
pub mod Sfs
mod Tests
