-- ===== src/Mapper.antt =====
-- The mappers of InputReader.cpp, as far as they work on whole numbers and sets.
pub mod KeyCode
pub mod Keyboard
pub mod Vibrator
pub mod Switch
pub mod Touch
