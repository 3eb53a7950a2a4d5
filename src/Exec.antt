-- ===== src/Exec.antt =====
-- internal/exec: the executor that works one approved intent.
pub mod Side
pub mod Tick
pub mod Intent
pub mod State
pub mod Exposure
pub mod Machine
pub mod Key
pub mod Decide
pub mod Journal
pub mod Executor
pub mod Ledger
pub mod E1
mod Tests
