-- ===== src/Store.antt =====
-- The persistence layer: internal/store.
pub mod Types
pub mod Frames
pub mod Transitions
pub mod Tables
pub mod Environments
pub mod Events
pub mod DnsRows
pub mod Paging
pub mod Lifecycle
pub mod EventLog
pub mod Validity
pub mod Claims
pub mod Pruning
