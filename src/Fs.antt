-- ===== src/Fs.antt =====
-- proj4/cs1550.c: the file system that FUSE mounts over the image `.disk`.
pub mod Bytes
pub mod Disk
pub mod Bitmap
pub mod Path
pub mod Layout
pub mod Handlers
pub mod Data
pub mod Blocks
pub mod Entries
pub mod Files
pub mod Mkdir
pub mod Mknod
pub mod Chain
pub mod RoundTrip
pub mod Overrun
mod Tests
