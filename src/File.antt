-- ===== src/File.antt =====
-- kernel/fs/file.c: the descriptors of open files and directories.
pub mod Defs
pub mod Slots
pub mod Transfer
pub mod Listing
mod Tests
