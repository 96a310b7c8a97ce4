-- ===== src/Display.antt =====
-- The buffers that the display is given.
pub mod Format
pub mod Buffer
pub mod Queue
