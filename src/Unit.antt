-- ===== src/Unit.antt =====
-- The pure rules of the flap unit (firmware/v2/Unit).
pub mod BusSilence
pub mod Odometer
pub mod Drift
pub mod Heal
pub mod Update
