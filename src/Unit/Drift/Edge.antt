-- ===== src/Unit/Drift/Edge.antt =====
-- What an edge of the hall sensor makes of the tracked position (`driftObserveEdge`), and the
-- letter that a position shows (`driftPhysicalLetter`).
use split_flap.Common.{ℕ, ◌+◌, ◌*◌, ◌/◌, ◌≤◌, ◌<◌, ◌≡◌, ◌↔◌, ◌⊎◌, true, false, bump8, arith}
use split_flap.Common.Int.{ℤ, pos, abs, pos_part, neg_part, ◌-ℤ◌}
use split_flap.Unit.Drift.{
  DriftState, fold_deviation, mark_synced, observe_edge, physical_letter, wrap,
}
use native.Mathlib.Nat.{mod-lt}

-- A position within a revolution is folded into a deviation of at most half a revolution, from
-- which it differs by nothing or by a revolution.
pub fold_deviation_lem :
    (position spr : ℕ)
    → position < spr
    → let d = fold_deviation position spr in
      (abs d * 2 ≤ spr)
      × ((pos_part d ≡ position + neg_part d) ⊎ (pos_part d + spr ≡ position + neg_part d))
unfolding fold_deviation
fold_deviation_lem position spr h = ground arith

-- An edge counts an event exactly when the position was synced before and deviates by more than the
-- threshold. Every edge syncs; one that is counted remembers the deviation and adds an event, up to
-- 255, and any other leaves both.
observe_edge_lem :
    (s : DriftState) (spr threshold : ℕ)
    → threshold < 32768
    → let (counted, t) = observe_edge s spr threshold in
      let d = fold_deviation s.drum_position spr in
      ((counted ≡ true) ↔ ((s.position_known ≡ true) × (threshold < abs d)))
      × (t.drum_position ≡ 0)
      × (t.position_known ≡ true)
      × (counted ≡ true → (t.last_drift_steps ≡ d) × (t.drift_events ≡ bump8 s.drift_events))
      × (counted ≡ false
          → (t.last_drift_steps ≡ s.last_drift_steps) × (t.drift_events ≡ s.drift_events))
unfolding observe_edge mark_synced
observe_edge_lem s spr threshold h = ground arith

-- The letter of a synced drum is one of its flaps.
pub physical_letter-lt :
    (s : DriftState) (cal_offset : ℤ) (spr flap_amount : ℕ)
    → s.position_known ≡ true
    → 0 < flap_amount
    → physical_letter s cal_offset spr flap_amount < flap_amount
unfolding physical_letter
physical_letter-lt s cal spr flaps k h =
    ground (arith, mod-lt ((wrap (pos s.drum_position -ℤ cal) spr * flaps + spr / 2) / spr) h)
