-- ===== src/Wire.antt =====
-- The bytes that travel between a row master and its units.
pub mod Checksum
pub mod Cmd
pub mod Contract
pub mod BusRecord
pub mod Replies
pub mod Detect
mod Tests
