-- ===== src/Bus.antt =====
-- The row master's side of the unit bus: firmware/v2/shared/TwibootFlash.h, UnitBusTwiboot.h and
-- UnitBusCore.h.
pub mod Adapter
pub mod Twiboot
pub mod Sketch
pub mod Flash
pub mod Rescue
pub mod Wired
mod Tests
