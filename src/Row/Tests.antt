-- ===== src/Row/Tests.antt =====
-- A row whose units are all in their bootloader, and of which unit 3 does not take the image.
use split_flap.Common.{
  ℕ, ◌+◌, ◌≤◌, ◌≡◌, ◌↔◌, List, [], ◌∷◌, true, false, arith, ◌==◌, if◌then◌else◌, ◌<◌, some,
}
use split_flap.Row.Progress.{begin, MaintOutcome}
use split_flap.Row.Calls.{Hooks, flashed, failed}
use split_flap.Row.Plan.{UnitFacts, parse_address, decimal, parse_address_iff}
use split_flap.Row.Reflash.{run_targets}
use split_flap.Row.Reflash.Safety.{Guarded, run_targets-Guarded}
use split_flap.Row.Quiet.{restored_units, taken_units, settled_units, largest_settle}
use split_flap.Row.Reflash.Batches.{run_targets_settles}
use split_flap.Row.UpdateJob.{SweepHooks}

-- The world is the number of flashes.
abbrev row : Hooks ℕ
row = record {
  stop_requested = λ w. (false, w);
  image_fits = λ w. (true, w);
  in_bootloader = λ addr w. (true, w);
  enter_bootloader = λ addr w. (0, w);
  pause = λ ms w. w;
  unit_not_entered = λ addr w. w;
  waiting_for_reset = λ addr w. w;
  unit_retried = λ addr attempt w. w;
  flash_unit = λ addr w. ((if addr == 3 then failed else flashed), w + 1);
  unit_flashed = λ addr w. w;
  progress_changed = λ p w. w;
  settle_batch = λ addrs w. w;
  run_halted = λ failures left w. w;
}

abbrev plan : List ℕ
plan = 1 ∷ 2 ∷ 3 ∷ 4 ∷ []

run_targets-Guarded_example : Guarded (run_targets row 2 0 plan (begin 4) 0).ctx.log
run_targets-Guarded_example = run_targets-Guarded row 2 0 plan (begin 4) 0

run_targets_settles_example :
    let log = (run_targets row 2 0 plan (begin 4) 0).ctx.log in
    (settled_units log ≡ taken_units log)
    × (restored_units log ≡ taken_units log)
    × (largest_settle log ≤ 2)
run_targets_settles_example = run_targets_settles row 2 0 plan (begin 4) 0 (omega arith)

-- Boot sections that take the image, but for that of unit 4, which has it.
abbrev sweeper : SweepHooks ℕ
sweeper = record {
  stop_requested = λ w. (false, w);
  boot_update = λ addr w. (record { outcome = MaintOutcome.ok; already_new = addr == 4 }, w);
  progress_changed = λ p w. w;
  sweep_halted = λ failures left w. w;
}

abbrev two_boots : ℕ → List ℕ × ℕ
two_boots w = (2 ∷ 4 ∷ [], w)

-- A unit in its sketch on another revision, and one in its bootloader.
abbrev two_units : List UnitFacts
two_units =
    (record { state = 1; fw_status = 1; protocol_known = true; protocol_version = 1 })
    ∷ (record { state = 2; fw_status = 2; protocol_known = false; protocol_version = 0 })
    ∷ []

parse_address_iff_example :
    (parse_address (some (0x31 ∷ 0x37 ∷ [])) ≡ some 17)
    ↔ ((17 < 1000) × ((0x31 ∷ 0x37 ∷ []) ≡ decimal 17))
parse_address_iff_example = parse_address_iff (0x31 ∷ 0x37 ∷ []) 17
