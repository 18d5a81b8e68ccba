-- ===== src/Terminal.antt =====
-- kernel/drivers/fb_term.c: the text terminal.
pub mod Defs
pub mod Cells
pub mod Scroll
pub mod Text
pub mod Write
mod Tests
