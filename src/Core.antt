-- ===== src/Core.antt =====
-- The reconciler and the reaper: internal/core.
pub mod Reconciler
pub mod Frames
pub mod Locks
pub mod Retry
pub mod Readiness
pub mod Apply
pub mod Destroy
pub mod SleepWake
pub mod Webhook
pub mod Process
pub mod Reaper
pub mod Operations
pub mod Histories
