-- ===== src/Mm.antt =====
-- Memory management, src/kernel/mm.
pub mod Frames
pub mod Paging
pub mod Heap
