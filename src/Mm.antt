-- ===== src/Mm.antt =====
-- The memory manager of code/czl_mm.c.
pub mod State
pub mod Sizes
pub mod Sys
pub mod Cache
mod Tests
