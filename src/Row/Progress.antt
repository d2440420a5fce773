-- ===== src/Row/Progress.antt =====
-- firmware/v2/shared/ReflashPlan.h, the progress of a reflash job and its grade, with the outcome
-- of MaintenancePolicy.h.
use split_flap.Common.{ℕ, ◌+◌, Bool, true, false, not, ◌&&◌, ◌||◌, ltb, if◌then◌else◌, u8}

pub data ReflashState : Type 0 where
  idle entering flashing settling boot_update done cancelled failed : ReflashState

-- Every counter is a uint8_t.
pub record Progress : Type 0 where
  pub state : ReflashState
  pub total : ℕ
  pub flashed : ℕ  -- the source's `done`
  pub lost : ℕ  -- the source's `failed`
  pub current_addr : ℕ
  pub halted : Bool
  pub boot_done : ℕ
  pub boot_failed : ℕ

unfoldable pub in_progress : Progress → Bool
in_progress p = elim p.state [
  | ReflashState.entering ↦ true
  | ReflashState.flashing ↦ true
  | ReflashState.settling ↦ true
  | ReflashState.boot_update ↦ true
  | _ ↦ false
]

unfoldable pub begin : ℕ → Progress
begin total = record {
  state = ReflashState.entering;
  total = u8 total;
  flashed = 0;
  lost = 0;
  current_addr = 0;
  halted = false;
  boot_done = 0;
  boot_failed = 0;
}

unfoldable pub unit_start : Progress → ℕ → Progress
unit_start p addr = record p { state = ReflashState.flashing; current_addr = addr }

unfoldable pub unit_result : Progress → Bool → Progress
unit_result p ok =
    if ok then record p { flashed = u8 (p.flashed + 1) } else record p { lost = u8 (p.lost + 1) }

unfoldable pub settle : Progress → Progress
settle p = record p { state = ReflashState.settling; current_addr = 0 }

unfoldable pub finish : Progress → Bool → Bool → Progress
finish p was_cancelled was_halted = record p {
  current_addr = 0;
  halted = was_halted && not was_cancelled;
  state =
      if was_cancelled
      then ReflashState.cancelled
      else if ltb 0 p.lost || ltb 0 p.boot_failed
      then ReflashState.failed
      else ReflashState.done;
}

-- `MaintOutcome`, of which a reflash job is graded by two.
pub data MaintOutcome : Type 0 where
  pending ok wire_fail exec_validation_fail postcondition_fail : MaintOutcome

unfoldable pub classify : Progress → MaintOutcome
classify p = elim p.state [
  | ReflashState.done ↦ MaintOutcome.ok
  | _ ↦ MaintOutcome.postcondition_fail
]
