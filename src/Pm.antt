-- ===== src/Pm.antt =====
-- Process management, src/kernel/pm.
pub mod Procs
pub mod Syscalls
pub mod Devices
