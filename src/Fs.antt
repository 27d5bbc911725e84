-- ===== src/Fs.antt =====
-- The file system: fs/.
pub mod Buffer
