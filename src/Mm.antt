-- ===== src/Mm.antt =====
-- Memory management: mm/.
pub mod Avl
pub mod Buddy
pub mod PageAlloc
pub mod Slab
pub mod Unmap
pub mod Mmap
