-- ===== src/Tests.antt =====
-- Concrete inputs of the theorems: a model of each parameter, and runs of the modelled code.
pub mod Bits
pub mod Mappers
mod Input
mod Display
mod Pointer
mod Reader
mod Touch
mod Kernel
mod Keyboard
mod Mapper
pub mod Cores
mod Queue
mod Producer
