-- ===== src/Row/Reflash.antt =====
-- firmware/v2/shared/ReflashPlan.h, the flash loop: the units of a plan are sent into their
-- bootloader, flashed in batches and given time to home (`reflashRunTargets`).
pub mod Safety
pub mod Batches
pub mod Grade
use split_flap.Common.{
  ℕ, zero, suc, ◌+◌, ◌-◌, ◌/◌, List, [], ◌∷◌, ◌++◌, Bool, true, false, not, ◌&&◌, ◌==◌, ◌!=◌, ltb,
  leb, if◌then◌else◌, length, u8, bump8,
}
use split_flap.Row.Calls.{
  Outcome, flashed, failed, stopped, not_entered, Hooks, Call, missed, restored, published, settled,
  halt, Ctx, tell, ask_stop,
}
use split_flap.Row.Enter.{Entry, ready, missing, cancelled, entry, attempts}
use split_flap.Row.Progress.{Progress, unit_start, unit_result, settle}

abbrev pub max_consecutive_failures : ℕ
max_consecutive_failures = 2

unfoldable pub should_halt : ℕ → Bool
should_halt consecutive_failures = leb max_consecutive_failures consecutive_failures

-- `ReflashRunEnd`, the counters being uint8_t.
pub record RunEnd : Type 0 where
  pub was_cancelled : Bool
  pub was_halted : Bool
  pub flashed_units : ℕ
  pub not_entered_units : ℕ

-- The variables of `reflashRunTargets`.
pub record Run (W : Type 0) : Type 0 where
  pub ctx : Ctx W
  pub progress : Progress
  pub failures : ℕ  -- uint8_t
  pub batch : List ℕ
  pub ended : RunEnd

module _ {W : Type 0} (h : Hooks W) where
  -- `progressChanged` on the run's own progress.
  unfoldable pub publish : Run W → Run W
  unfolding tell
  publish r = record r { ctx = tell (published r.progress) (h.progress_changed r.progress) r.ctx }

  -- The end of a run that a stop cut short: the unit counts as failed, the run as cancelled.
  unfoldable pub cut_short : Run W → Run W
  unfolding publish
  cut_short r = publish (record r {
    progress = unit_result r.progress false;
    ended = record r.ended { was_cancelled = true };
  })

  -- The bookkeeping of a unit's outcome.
  unfoldable pub note_outcome : ℕ → Outcome → Run W → Run W
  unfolding tell
  note_outcome addr flashed r = record r {
    ctx = tell (restored addr) (h.unit_flashed addr) r.ctx;
    progress = unit_result r.progress true;
    failures = 0;
    batch = r.batch ++ addr ∷ [];
    ended = record r.ended { flashed_units = u8 (r.ended.flashed_units + 1) };
  }
  note_outcome addr not_entered r = record r {
    ctx = tell (missed addr) (h.unit_not_entered addr) r.ctx;
    progress = unit_result r.progress false;
    ended = record r.ended { not_entered_units = u8 (r.ended.not_entered_units + 1) };
  }
  note_outcome addr failed r = record r {
    progress = unit_result r.progress false;
    failures = bump8 r.failures;
  }
  note_outcome addr stopped r = record r {
    progress = unit_result r.progress false;
    failures = bump8 r.failures;
  }

  -- `settleBatch` of the units flashed since the last one.
  unfoldable pub settle_batch : Run W → Run W
  unfolding publish
  settle_batch r =
      let p = publish (record r { progress = settle r.progress }) in
      record p { ctx = tell (settled p.batch) (h.settle_batch p.batch) p.ctx; batch = [] }

  -- A full batch is settled.
  unfoldable pub settle_full : ℕ → Run W → Run W
  unfolding settle_batch
  settle_full batch_size r = if leb batch_size (length r.batch) then settle_batch r else r

  -- Two failures in a row halt the run; `left` units stand behind. The answer is whether it goes
  -- on.
  unfoldable pub halt_or_go : ℕ → Run W → Bool × Run W
  halt_or_go left r =
      let halting = record r {
        ctx = tell (halt r.failures left) (h.run_halted r.failures left) r.ctx;
        ended = record r.ended { was_halted = true };
      } in
      if should_halt r.failures then (false, halting) else (true, r)

  -- The end of a unit's turn.
  unfoldable pub close_turn : ℕ → ℕ → Run W → Bool × Run W
  unfolding settle_full halt_or_go
  close_turn batch_size left r = halt_or_go left (settle_full batch_size r)

  -- The rest of a turn once the unit's outcome is known.
  unfoldable pub conclude : ℕ → ℕ → ℕ → Outcome → Run W → Bool × Run W
  unfolding cut_short note_outcome close_turn
  conclude batch_size left addr stopped r = (false, cut_short r)
  conclude batch_size left addr flashed r =
      close_turn batch_size left (publish (note_outcome addr flashed r))
  conclude batch_size left addr failed r =
      close_turn batch_size left (publish (note_outcome addr failed r))
  conclude batch_size left addr not_entered r =
      close_turn batch_size left (publish (note_outcome addr not_entered r))

  -- A unit's turn, from how it was entered.
  unfoldable pub after_entry : ℕ → ℕ → ℕ → Entry → Run W → Bool × Run W
  unfolding attempts conclude
  after_entry batch_size left addr cancelled r = (false, cut_short r)
  after_entry batch_size left addr ready r =
      let (o, c) = attempts h ready addr r.ctx in
      conclude batch_size left addr o (record r { ctx = c })
  after_entry batch_size left addr missing r =
      let (o, c) = attempts h missing addr r.ctx in
      conclude batch_size left addr o (record r { ctx = c })

  -- The body of the run's loop behind the stop test.
  unfoldable pub turn : ℕ → ℕ → ℕ → ℕ → Run W → Bool × Run W
  unfolding entry after_entry
  turn batch_size wait_ms left addr r =
      let r1 = publish (record r { progress = unit_start r.progress addr }) in
      let (e, c) = entry h wait_ms addr r1.ctx in
      after_entry batch_size left addr e (record r1 { ctx = c })

  unfoldable pub run_loop : ℕ → ℕ → List ℕ → Run W → Run W
  unfolding turn ask_stop
  run_loop batch_size wait_ms [] r = r
  run_loop batch_size wait_ms (addr ∷ targets) r =
      let (stopping, c) = ask_stop h r.ctx in
      let stopped_run = record r { ctx = c; ended = record r.ended { was_cancelled = true } } in
      let (goes_on, r1) = turn batch_size wait_ms (length targets) addr (record r { ctx = c }) in
      let rest = run_loop batch_size wait_ms targets r1 in
      if stopping then stopped_run else if goes_on then rest else r1

  -- The settle behind the loop, which runs on every exit.
  unfoldable pub last_settle : Run W → Run W
  unfolding settle_batch
  last_settle r = if ltb 0 (length r.batch) then settle_batch r else r

  -- The variables at the start of a run.
  unfoldable pub start_run : Progress → W → Run W
  start_run progress world = record {
    ctx = record { world = world; log = [] };
    progress = progress;
    failures = 0;
    batch = [];
    ended = record {
      was_cancelled = false;
      was_halted = false;
      flashed_units = 0;
      not_entered_units = 0;
    };
  }

  unfoldable pub run_targets : ℕ → ℕ → List ℕ → Progress → W → Run W
  unfolding run_loop last_settle start_run
  run_targets batch_size wait_ms targets progress world =
      last_settle (run_loop batch_size wait_ms targets (start_run progress world))
