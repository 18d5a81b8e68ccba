-- ===== src/Mouse.antt =====
-- kernel/drivers/mouse.c, and the position of the pointer in kernel/drivers/fb_cursor.c.
pub mod Defs
pub mod Packets
mod Tests
