-- ===== src/Input.antt =====
-- frameworks/native/services/inputflinger/InputReader.cpp: the raw events and their readers.
pub mod Event
pub mod Cursor
pub mod TouchButtons
pub mod MultiTouch
pub mod SingleTouch
