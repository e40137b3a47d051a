-- ===== src/Files.antt =====
-- The file service of internal/files.
pub mod Patch
pub mod Parse
mod Tests
