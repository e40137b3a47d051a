-- ===== src/Cli.antt =====
-- The terminal windows of internal/cli.
pub mod Layout
mod Tests
