-- ===== src/Gui.antt =====
-- kernel/gui: the windows and the mouse.
pub mod Defs
pub mod Order
pub mod Top
pub mod Redraw
pub mod Click
mod Tests
