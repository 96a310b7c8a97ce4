-- ===== src/Pointer.antt =====
-- The pointers of a touch device in frameworks/native/services/inputflinger/InputReader.cpp and
-- InputReader.h.
pub mod Bits
pub mod Raw
pub mod Heap
pub mod Match
pub mod Sync
