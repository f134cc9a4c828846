-- ===== src/Fs.antt =====
-- The shared folders file system, kmods-src/prl_fs.
pub mod Path
pub mod Status
pub mod Flags
pub mod Requests
pub mod OpenFile
pub mod Dir
pub mod Rw
pub mod Options
pub mod Attr
pub mod Dentry
pub mod Super
mod Tests
