-- ===== src/Io.antt =====
-- Input and output, src/kernel/io.
pub mod Virtual
pub mod Monitors
