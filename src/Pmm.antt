-- ===== src/Pmm.antt =====
-- kernel/mm/pmm.c, the physical page allocator: a bitmap of the pages in use.
pub mod Bitmap
pub mod Multiboot
pub mod Defs
pub mod Range
pub mod Init
pub mod Valid
pub mod Alloc
pub mod Free
mod Tests
