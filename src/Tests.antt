-- ===== src/Tests.antt =====
-- Runs of the model at concrete inputs.
pub mod Fixtures
pub mod Witnesses
pub mod Runs
pub mod Requests
pub mod Parts
pub mod Zones
pub mod Records
pub mod Hosts
pub mod Values
pub mod Callers
pub mod Certificates
pub mod Deployments
pub mod Daemons
