-- ===== src/Vmm.antt =====
-- kernel/mm/vmm.c: the page tables.
pub mod Defs
pub mod Clone
pub mod Map
pub mod Translate
pub mod Split
pub mod Keeps
pub mod Table
pub mod Tests
