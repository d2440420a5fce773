-- ===== src/Bus/Adapter.antt =====
-- The bus adapter of firmware/v2/shared/TwibootFlash.h and UnitBusCore.h. Each tree that reflashes
-- units brings its own, on top of the Wire library: it is a parameter over the state `W` of its
-- world.
use split_flap.Common.{ℕ, List, Bool}

-- `UnitBusAct`
pub data UnitBusAct : Type 0 where
  write read probe : UnitBusAct

-- `queue`: `beginTransmission` and a `write` of each byte, with the number of bytes that the buffer
-- took. `receive`: `requestFrom` with the bytes that came; what is not read of them is drained.
pub record Bus (W : Type 0) : Type 0 where
  pub queue : ℕ → List ℕ → W → ℕ × W
  pub end_transmission : Bool → W → ℕ × W  -- 0 = ACKed
  pub end_counted : W → ℕ × W
  pub receive : ℕ → ℕ → W → List ℕ × W
  pub now_ms : W → ℕ × W  -- uint32_t
  pub sleep_ms : ℕ → W → W
  pub read_failed : W → W
  pub note_read_error : W → W
  pub mark : UnitBusAct → ℕ → W → W

module _ {W : Type 0} (bus : Bus W) where
  -- A whole write transaction.
  unfoldable pub transmit : ℕ → List ℕ → Bool → W → ℕ × W
  transmit addr bytes stop w =
      let (queued, w1) = bus.queue addr bytes w in bus.end_transmission stop w1

  -- A sketch-protocol write transaction.
  unfoldable pub transmit_counted : ℕ → List ℕ → W → ℕ × W
  transmit_counted addr bytes w =
      let (queued, w1) = bus.queue addr bytes (bus.mark write addr w) in bus.end_counted w1
