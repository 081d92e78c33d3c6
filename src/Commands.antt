-- ===== src/Commands.antt =====
-- src/main.rs: the commands that change the running server and the configuration, and the start of a
-- server.
pub mod Persistent
pub mod Rollback
pub mod ForwardRollback
pub mod Deleting
pub mod Starting
pub mod Started
pub mod Samples
mod Tests
mod StartTests
mod ForwardTests
