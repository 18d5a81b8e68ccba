-- ===== src/Keyboard.antt =====
-- kernel/drivers/keyboard.c: the buffer of the typed characters and the decoding of scan codes.
pub mod Defs
pub mod Buffer
pub mod Keys
pub mod Tests
