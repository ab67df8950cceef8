-- ===== src/Fs.antt =====
-- The file layers of kern/fs/.
pub mod File
pub mod Bitmap
