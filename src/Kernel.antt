-- ===== src/Kernel.antt =====
-- kernel/drivers/zizhan: the windows that receive input events in the kernel, and the dispatcher.
pub mod Window
pub mod Dispatch
