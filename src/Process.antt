-- ===== src/Process.antt =====
-- The process service of internal/process: the log of a process's output.
pub mod Bytes
pub mod Record
pub mod Segment
pub mod Frames
mod Tests
