-- ===== src/Fat.antt =====
-- kernel/fs/fat16.c: files on a FAT16 volume.
pub mod Disk
pub mod Names
pub mod Table
pub mod Root
pub mod Files
mod Words
mod Entries
mod Assign
mod Allocate
mod Dirents
mod Scanning
mod Lookup
mod Create
mod Parsing
mod Contents
mod Stored
mod Chains
mod ReadBack
mod Written
mod Keeping
mod Linking
mod Growing
mod Closing
mod Separate
mod Sameness
mod Reading
mod Store
mod RoundTrip
mod Release
mod Tests
