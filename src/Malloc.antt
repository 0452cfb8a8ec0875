-- ===== src/Malloc.antt =====
-- The allocator under custom_malloc/, which the kernel and the C library share.
pub mod Item
pub mod Library
pub mod Blocks
