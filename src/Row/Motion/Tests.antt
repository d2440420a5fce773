-- ===== src/Row/Motion/Tests.antt =====
-- Witnesses for firmware/v2/shared/MotionBudget.h.
use split_flap.Common.{ℕ, ◌+◌, ◌≤◌, ◌≡◌, refl, [], ◌∷◌, true, false, if◌then◌else◌, arith, u32}
use split_flap.Row.Motion.{
  Tracker, idle, tracker_observe, Poll, start_budget, start_gate, radio_quiet, radio_observe,
}
use split_flap.Row.Motion.Movers.{IsTracker, movers, delete, tracker_observe-movers}
use split_flap.Row.Motion.Cap.{IsBudget, Fold, RadioSample, observe_all, radio_quiet-settled}

abbrev two_movers : Tracker
two_movers = record {
  slots =
      record { unit = 3; start = 100 }
      ∷ record { unit = 7; start = 200 }
      ∷ record { unit = 0; start = 0 }
      ∷ record { unit = 0; start = 0 }
      ∷ [];
  count = 2;
}

two_movers-IsTracker : IsTracker two_movers
two_movers-IsTracker = record { whole = refl; bounded = omega arith }

tracker_observe-movers_example :
    let (retired, u) = tracker_observe two_movers 0 idle 900 in
    IsTracker u
    × (movers u ≡ (if retired then delete 0 (movers two_movers) else movers two_movers))
    × (u.count ≤ two_movers.count)
tracker_observe-movers_example = tracker_observe-movers two_movers 0 idle 900 two_movers-IsTracker

-- Units that are idle at each poll; the world is the clock.
abbrev idle_row : Poll ℕ
idle_row = record {
  aborted = λ w. (false, w);
  check_if_moving = λ unit_index w. (idle, w);
  now_ms = λ w. (u32 w, w);
  pause = λ w. w + 50;
}

start_budget-IsBudget : IsBudget start_budget
start_budget-IsBudget = record {
  at_least = omega arith;
  at_most = omega arith;
  counted = omega arith;
  whole = refl;
}

abbrev sag_at : ℕ → ℕ → Fold
sag_at t mv = record { at = t; unit_index = 2; vitals_valid = true; vmin = mv }

abbrev quiet_at : ℕ → RadioSample
quiet_at t = record { at = t; radio_busy = false }

abbrev busy_at : ℕ → RadioSample
busy_at t = record { at = t; radio_busy = true }

radio_quiet_lem :
    radio_quiet
      (observe_all (quiet_at 100 ∷ busy_at 300 ∷ quiet_at 500 ∷ quiet_at 2400 ∷ []) start_gate)
      2600
    ≡ true
unfolding radio_quiet radio_observe
radio_quiet_lem = refl

radio_quiet-settled_example : 300 + 2000 ≤ 2600
radio_quiet-settled_example =
    radio_quiet-settled (quiet_at 100 ∷ []) (quiet_at 500 ∷ quiet_at 2400 ∷ []) 300 2600 start_gate
      (omega arith, (omega arith, omega arith)) radio_quiet_lem
