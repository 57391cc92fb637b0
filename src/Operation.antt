-- ===== src/Operation.antt =====
-- internal/operation/: the journal of commands (engine.go) and the executor that owns their
-- execution, recovery and replay (executor.go).
pub mod Token
pub mod Records
pub mod Validate
pub mod Journal
pub mod WellFormed
pub mod ActiveRecords
pub mod Accepted
pub mod Methods
pub mod Reopen
pub mod Fits
pub mod History
pub mod Results
pub mod Executor
pub mod Once
pub mod Replay
pub mod Crash
mod Tests
