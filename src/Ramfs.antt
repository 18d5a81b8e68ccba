-- ===== src/Ramfs.antt =====
-- kernel/fs/ramfs.c: the tree of files and directories in memory.
pub mod Defs
pub mod Path
pub mod Data
pub mod Memory
pub mod Bytes
pub mod Enlarge
pub mod Contents
pub mod Chain
pub mod Children
pub mod Cut
pub mod Unlink
pub mod Tests
