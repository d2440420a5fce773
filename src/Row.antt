-- ===== src/Row.antt =====
-- The rules that a row master applies to its units (firmware/v2/shared, included by Master and
-- FollowerEsp01).
pub mod Progress
pub mod Calls
pub mod Enter
pub mod Plan
pub mod Quiet
pub mod Reflash
pub mod UpdateJob
pub mod Motion
pub mod Lost
mod Tests
