-- ===== src/Kernel.antt =====
-- The kernel under stuos/src/.
pub mod Outcome
pub mod Slab
pub mod Tty
pub mod Paging
pub mod Ring
pub mod Keyboard
pub mod Files
pub mod VaList
pub mod Heap
pub mod BlockDevice
pub mod Fat
