-- ===== src/Config.antt =====
-- src/config.rs: the configuration, and the persistent rules that commands add and remove.
-- The files are those of the configuration's directory, by name; a path is a file name there.
pub mod Files
pub mod Rules
pub mod Atomic
pub mod Loading
pub mod Serving
pub mod Forwarding
pub mod Codec
pub mod Forwarded
mod Tests
