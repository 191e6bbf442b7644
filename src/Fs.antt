-- ===== src/Fs.antt =====
-- The file system, src/kernel/fs.
pub mod Device
pub mod Bmap
pub mod Table
pub mod Inodes
pub mod Files
pub mod Blocks
pub mod Io
pub mod Dir
pub mod Tree
pub mod Super
