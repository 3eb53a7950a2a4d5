-- ===== src/Book.antt =====
-- internal/book: the verdicts on the continuity of a recording.
pub mod Frame
pub mod Detect
pub mod Evidence
pub mod Recorder
pub mod Replay
mod Tests
