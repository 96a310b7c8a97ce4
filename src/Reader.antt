-- ===== src/Reader.antt =====
-- InputReader and InputDevice of frameworks/native/services/inputflinger/InputReader.cpp.
pub mod Devices
pub mod Context
pub mod Device
pub mod Loop
pub mod Queries
