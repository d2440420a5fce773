-- ===== src/Unit/Drift.antt =====
-- firmware/v2/Unit/UnitDrift.h: the drum's position by dead reckoning, and its deviation at an edge
-- of the hall sensor. `long` and int32_t values are ℤ; every int16_t value of the source fits where
-- the steps of a revolution fit uint16_t.
pub mod Reckoning
pub mod Edge
mod Tests
use split_flap.Common.{
  ℕ, zero, suc, ◌+◌, ◌-◌, ◌*◌, ◌/◌, ◌%◌, ◌≤◌, ◌<◌, ◌≡◌, ◌↔◌, ◌⊎◌, refl, Bool, true, false, not,
  ◌&&◌, ltb, leb, if◌then◌else◌, u8, u16, bump8, arith,
}
use split_flap.Common.Int.{ℤ, pos, negsuc, abs, rem, ◌+ℤ◌, ◌-ℤ◌, sub_ℕ}

pub record DriftState : Type 0 where
  pub drum_position : ℕ  -- uint16_t
  pub position_known : Bool
  pub drift_events : ℕ  -- uint8_t
  pub last_drift_steps : ℤ  -- int16_t
  pub drift_pending : Bool

abbrev pub drift_reset : DriftState
drift_reset = record {
  drum_position = 0;
  position_known = false;
  drift_events = 0;
  last_drift_steps = pos 0;
  drift_pending = false;
}

-- `if (pos < 0) pos += stepsPerRev;`
unfoldable pub lift : ℤ → ℕ → ℕ
lift (pos n) steps_per_rev = n
lift (negsuc n) steps_per_rev = steps_per_rev - suc n

-- A position modulo a revolution.
unfoldable pub wrap : ℤ → ℕ → ℕ
unfolding lift
wrap p steps_per_rev = lift (rem p steps_per_rev) steps_per_rev

unfoldable pub advance : DriftState → ℤ → ℕ → DriftState
unfolding wrap
advance s steps steps_per_rev = record s {
  drum_position = u16 (wrap (pos s.drum_position +ℤ steps) steps_per_rev);
}

unfoldable pub fold_deviation : ℕ → ℕ → ℤ
fold_deviation position steps_per_rev =
    if leb position (steps_per_rev / 2) then pos position else sub_ℕ position steps_per_rev

unfoldable pub mark_synced : DriftState → DriftState
mark_synced s = record s { drum_position = 0; position_known = true }

-- The answer is whether an event was counted. `(int16_t)thresholdSteps` is negative from 32768 on.
unfoldable pub observe_edge : DriftState → ℕ → ℕ → Bool × DriftState
unfolding fold_deviation mark_synced
observe_edge s steps_per_rev threshold_steps =
    let deviation = fold_deviation s.drum_position steps_per_rev in
    let synced = mark_synced s in
    if not s.position_known
    then (false, synced)
    else if ltb threshold_steps 32768 && leb (abs deviation) threshold_steps
    then (false, synced)
    else (true, record synced { drift_events = bump8 s.drift_events; last_drift_steps = deviation })

abbrev pub letter_unknown : ℕ
letter_unknown = 0xff

unfoldable pub physical_letter : DriftState → ℤ → ℕ → ℕ → ℕ
unfolding wrap
physical_letter s cal_offset steps_per_rev flap_amount =
    let from_zero = wrap (pos s.drum_position -ℤ cal_offset) steps_per_rev in
    let letter = (from_zero * flap_amount + steps_per_rev / 2) / steps_per_rev in
    if not s.position_known then letter_unknown else u8 (letter % flap_amount)
