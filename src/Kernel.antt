-- ===== src/Kernel.antt =====
-- Terminals and processes: kernel/.
pub mod Console
pub mod Ring
pub mod Keymap
pub mod Tty
pub mod Keyboard
pub mod Sched
pub mod Wait
pub mod Timer
