-- ===== src/Row/UpdateJob.antt =====
-- firmware/v2/shared/UnitUpdateJob.h: the sweep over the boot sections (`unitUpdateRunBootSweep`),
-- and the job of Master/DisplayTask.cpp that runs it behind the flash loop and grades both.
pub mod Grade
use split_flap.Common.{
  ℕ, ◌+◌, List, [], ◌∷◌, Bool, true, false, not, ◌||◌, if◌then◌else◌, length, u8, bump8,
}
use split_flap.Row.Calls.{Hooks}
use split_flap.Row.Progress.{ReflashState, MaintOutcome, Progress, begin, finish}
use split_flap.Row.Reflash.{should_halt, Run, run_targets}

-- `MaintGrade`, of whose reasons the sweep asks for one.
pub record MaintGrade : Type 0 where
  pub outcome : MaintOutcome
  pub already_new : Bool

abbrev pub grade_ok : MaintOutcome → Bool
grade_ok MaintOutcome.ok = true
grade_ok _ = false

-- The calls that a row master's display task serves.
pub record SweepHooks (W : Type 0) : Type 0 where
  pub stop_requested : W → Bool × W
  pub boot_update : ℕ → W → MaintGrade × W
  pub progress_changed : Progress → W → W
  pub sweep_halted : ℕ → ℕ → W → W

-- The variables of `unitUpdateRunBootSweep`, with the boot updates made, newest first.
pub record Sweep (W : Type 0) : Type 0 where
  pub world : W
  pub updates : List (ℕ × MaintGrade)
  pub progress : Progress
  pub failures : ℕ  -- uint8_t
  pub was_cancelled : Bool
  pub was_halted : Bool

-- The counters behind a boot update.
unfoldable pub note_grade : {W : Type 0} → MaintGrade → Sweep W → Sweep W
note_grade grade s =
    let p = s.progress in
    let done = if grade.already_new then p else record p { boot_done = u8 (p.boot_done + 1) } in
    if not (grade_ok grade.outcome)
    then record s {
      progress = record p { boot_failed = u8 (p.boot_failed + 1) };
      failures = bump8 s.failures;
    }
    else record s { progress = done; failures = 0 }

module _ {W : Type 0} (g : SweepHooks W) where
  abbrev publish_sweep : Sweep W → Sweep W
  publish_sweep s = record s { world = g.progress_changed s.progress s.world }

  -- A unit's turn up to the test for a halt.
  unfoldable pub update_unit : ℕ → Sweep W → Sweep W
  unfolding note_grade
  update_unit addr s =
      let s1 = publish_sweep (record s {
        progress = record s.progress { state = ReflashState.boot_update; current_addr = addr };
      }) in
      let (grade, w) = g.boot_update addr s1.world in
      publish_sweep
        (note_grade grade (record s1 { world = w; updates = (addr, grade) ∷ s1.updates }))

  unfoldable pub sweep_loop : List ℕ → Sweep W → Sweep W
  unfolding update_unit
  sweep_loop [] s = s
  sweep_loop (addr ∷ targets) s =
      let (stopping, w) = g.stop_requested s.world in
      let s1 = update_unit addr (record s { world = w }) in
      let halting = record s1 {
        world = g.sweep_halted s1.failures (length targets) s1.world;
        was_halted = true;
      } in
      let rest = sweep_loop targets s1 in
      if stopping
      then record s { world = w; was_cancelled = true }
      else if should_halt s1.failures
      then halting
      else rest

  unfoldable pub run_boot_sweep : List ℕ → Progress → W → Sweep W
  unfolding sweep_loop
  run_boot_sweep targets progress world =
      let s = sweep_loop targets (record {
        world = world;
        updates = [];
        progress = progress;
        failures = 0;
        was_cancelled = false;
        was_halted = false;
      }) in
      record s { progress = record s.progress { current_addr = 0 } }

-- A job behind its end: the flash run, the boot updates, whether a stop ended it, the progress.
pub record Job (W : Type 0) : Type 0 where
  pub run : Run W
  pub updates : List (ℕ × MaintGrade)
  pub was_cancelled : Bool
  pub progress : Progress

-- The job of DisplayTask.cpp. `between` stands for what it does between the two loops: it probes the
-- row again, homes the units, and chooses the boot sections to update.
unfoldable pub run_job :
    {W : Type 0} → Hooks W → SweepHooks W → (W → List ℕ × W) → ℕ → ℕ → List ℕ → W → Job W
unfolding run_boot_sweep
run_job h g between batch_size wait_ms targets world =
    let r = run_targets h batch_size wait_ms targets (begin (length targets)) world in
    let (boots, w) = between r.ctx.world in
    let s = run_boot_sweep g boots r.progress w in
    let c = r.ended.was_cancelled in
    if c || r.ended.was_halted
    then record {
      run = r;
      updates = [];
      was_cancelled = c;
      progress = finish r.progress c r.ended.was_halted;
    }
    else record {
      run = r;
      updates = s.updates;
      was_cancelled = s.was_cancelled;
      progress = finish s.progress s.was_cancelled s.was_halted;
    }
