-- ===== src/Daemon.antt =====
-- src/daemon/: the long-lived server.
pub mod Connections
pub mod Tracking
pub mod State
pub mod Service
pub mod Served
pub mod Start
pub mod Loaded
pub mod Identity
pub mod Incoming
pub mod Routed
pub mod Owned
pub mod Reaching
pub mod Listening
pub mod Forwarded
pub mod Diagnostics
pub mod Reported
mod Tests
mod StartTests
mod DiagnosticsTests
mod ForwardTests
