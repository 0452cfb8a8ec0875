-- ===== src/Libc.antt =====
-- The C library under custom_libc/.
pub mod Memory
pub mod Mem
pub mod Str
pub mod Ctype
pub mod Strtol
pub mod Strings
pub mod Wchar
pub mod Sorting
