-- ===== src/Link.antt =====
-- The link between the wall master and its row masters.
pub mod Stream
pub mod Framing
pub mod Chunks
pub mod Document
pub mod Pieces
pub mod Transfer
mod Tests
