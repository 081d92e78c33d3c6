-- ===== src/ControlPlane.antt =====
-- src/daemon/control_plane.rs: the control socket of macOS and Windows, and the peers that are
-- connected to it. On Linux the transport is the session bus, which zbus owns.
pub mod Socket
pub mod Peers
pub mod Starting
pub mod Connected
pub mod Signals
mod Tests
