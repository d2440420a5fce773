-- ===== src/Row/Lost/Tests.antt =====
-- Witnesses for firmware/v2/shared/UnitRescuePolicy.h.
use split_flap.Common.{ℕ, ◌+◌, ◌≤◌, refl, [], ◌∷◌, true, false, length, arith}
use split_flap.Bus.Rescue.{no_ack, bootloader}
use split_flap.Row.Lost.{UnitRescueState, is_lost, Beat, probe_times, reshows}
use split_flap.Row.Lost.Cadence.{IsSpaced, pending, probe_times-IsSpaced, reshows-bounded}

abbrev start_rescue : UnitRescueState
start_rescue = record {
  attempted = false;
  last_attempt = 0;
  restore_pending = false;
  attempts = 0;
  exits = 0;
}

abbrev lost_at : ℕ → Beat
lost_at t = record {
  at = t;
  ended = t + 5;
  facts = record { state = 1; stale = true; status_valid = false; held = false };
  found = no_ack;
}

abbrev back_at : ℕ → Beat
back_at t = record {
  at = t;
  ended = t + 5;
  facts = record { state = 1; stale = false; status_valid = true; held = false };
  found = bootloader;
}

probe_times-IsSpaced_example :
    IsSpaced (probe_times (lost_at 100 ∷ lost_at 30000 ∷ lost_at 70000 ∷ []) start_rescue)
unfolding is_lost
probe_times-IsSpaced_example =
    probe_times-IsSpaced 0 (lost_at 100 ∷ lost_at 30000 ∷ lost_at 70000 ∷ []) start_rescue (
      omega arith,
      omega arith,
      refl,
      (omega arith, omega arith, refl, (omega arith, omega arith, refl, tt)),
    )

reshows-bounded_example :
    reshows (lost_at 100 ∷ back_at 200 ∷ back_at 300 ∷ []) start_rescue
    ≤ length (probe_times (lost_at 100 ∷ back_at 200 ∷ back_at 300 ∷ []) start_rescue)
      + pending start_rescue
reshows-bounded_example =
    reshows-bounded (lost_at 100 ∷ back_at 200 ∷ back_at 300 ∷ []) start_rescue
