-- ===== src/Fs.antt =====
-- File systems on block devices.
pub mod Bitmap
pub mod Fat32
