-- ===== src/Decode.antt =====
-- internal/decode: fill notices, their records, and the hint on repeated ones.
pub mod Notice
pub mod Counters
pub mod Duplicate
pub mod Record
pub mod Tests
