-- ===== src/Daemon.antt =====
-- The daemon: cmd/ramifyd/main.go.
pub mod EventLoop
pub mod Providers
