-- ===== src/Klib.antt =====
-- The kernel's library, src/kernel/lib and src/kernel/include.
pub mod Memory
pub mod Ringbuffer
pub mod Strings
pub mod Numbers
