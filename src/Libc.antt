-- ===== src/Libc.antt =====
-- The kernel's C library: lib/.
pub mod Math
pub mod Strings
pub mod Klibc
pub mod Vsprintf
pub mod Bitmap
pub mod Linked
