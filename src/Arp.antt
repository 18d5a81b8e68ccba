-- ===== src/Arp.antt =====
-- kernel/drivers/arp.c: the request for a hardware address.
pub mod Defs
pub mod Request
mod Tests
