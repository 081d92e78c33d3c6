-- ===== src/Proxy.antt =====
-- src/proxy.rs: the forwarding core. Its times are nanoseconds since the start of the runtime's
-- clock.
pub mod Retry
pub mod Errors
pub mod Retrying
pub mod Connecting
pub mod Pump
pub mod Pumping
mod Tests
