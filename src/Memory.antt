-- ===== src/Memory.antt =====
-- Data blocks (libs/src/core/memory).
pub mod Acquire
pub mod Frontier
pub mod Release
