-- ===== src/Run.antt =====
-- internal/backup/run.go.
pub mod Types
pub mod Scan
pub mod Worker
pub mod Loop
pub mod Outcome
pub mod Counts
pub mod Accounts
pub mod Failure
pub mod Outside
pub mod Stale
pub mod Found
pub mod Walk
pub mod Removed
pub mod Paths
pub mod Prune
pub mod Progress
pub mod Schedule
