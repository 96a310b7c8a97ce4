-- ===== src/Mapper/Touch.antt =====
-- TouchInputMapper of InputReader.cpp and InputReader.h: what it tells of the pointers it has cooked.
pub mod Bits
pub mod State
pub mod Motion
pub mod Cycle
pub mod Stream
pub mod Touches
pub mod Cycles
pub mod Runs
pub mod Hovers
