-- ===== src/Heap.antt =====
-- kernel/mm/heap.c, the kernel heap: block headers in memory, linked in address order.
pub mod Defs
pub mod Spec
pub mod Chain
pub mod Alloc
pub mod Valid
pub mod Merge
pub mod Fit
pub mod Api
pub mod Free
pub mod RoundTrip
mod Tests
