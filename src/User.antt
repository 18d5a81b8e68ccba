-- ===== src/User.antt =====
-- user/lib: memory and strings (string.c), the allocator (stdlib.c), printing of numbers (stdio.c).
pub mod Memory
pub mod Copy
pub mod Strings
pub mod Bounded
pub mod Malloc
pub mod Print
pub mod Tests
