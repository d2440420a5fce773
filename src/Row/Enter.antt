-- ===== src/Row/Enter.antt =====
-- firmware/v2/shared/ReflashPlan.h: how the flash loop gets one unit into its bootloader and its
-- image onto it (`reflashEnterUnit`, `reflashAwaitHandReset` and the attempts of one turn).
use split_flap.Common.{
  ℕ, zero, suc, ◌+◌, ◌-◌, ◌/◌, Bool, true, false, not, ◌!=◌, ltb, if◌then◌else◌,
}
use split_flap.Row.Calls.{
  Outcome, flashed, failed, stopped, not_entered, Hooks, paused, waiting, retried, Ctx, tell,
  ask_stop, ask_fits, ask_in_bootloader, order_bootloader, call_flash,
}

abbrev pub enter_probes : ℕ
enter_probes = 4

abbrev pub enter_probe_gap_ms : ℕ
enter_probe_gap_ms = 100

-- TWIBOOT_STARTUP_MS of firmware/v2/shared/UnitTimings.h
abbrev pub startup_ms : ℕ
startup_ms = 500

abbrev pub unit_attempts : ℕ
unit_attempts = 3

abbrev pub hand_reset_gap_ms : ℕ
hand_reset_gap_ms = 200

-- Whether a unit entered its bootloader, or the wait for it was ended by a stop.
pub data Entry : Type 0 where
  ready missing cancelled : Entry

module _ {W : Type 0} (h : Hooks W) where
  -- The questions of `reflashEnterUnit` after the order; the argument counts those after the first.
  unfoldable pub probe : ℕ → ℕ → Ctx W → Bool × Ctx W
  unfolding tell ask_in_bootloader
  probe zero addr c = ask_in_bootloader h addr c
  probe (suc left) addr c =
      let (there, c1) = ask_in_bootloader h addr c in
      let again =
        probe left addr (tell (paused enter_probe_gap_ms) (h.pause enter_probe_gap_ms) c1) in
      if there then (true, c1) else again

  unfoldable pub enter_unit : ℕ → Ctx W → Bool × Ctx W
  unfolding probe order_bootloader
  enter_unit addr c =
      let (there, c1) = ask_in_bootloader h addr c in
      let (status, c2) = order_bootloader h addr c1 in
      let c3 = tell (paused startup_ms) (h.pause startup_ms) c2 in
      if there
      then (true, c1)
      else if status != 0
      then (false, c2)
      else probe (enter_probes - 1) addr c3

  -- The loop of `reflashAwaitHandReset`, by the rounds that are left.
  unfoldable pub await_rounds : ℕ → ℕ → Ctx W → Bool × Ctx W
  unfolding tell ask_in_bootloader ask_stop
  await_rounds zero addr c = (false, c)
  await_rounds (suc left) addr c =
      let (stopping, c1) = ask_stop h c in
      let c2 = tell (paused hand_reset_gap_ms) (h.pause hand_reset_gap_ms) c1 in
      let (there, c3) = ask_in_bootloader h addr c2 in
      let again = await_rounds left addr c3 in
      if stopping then (false, c1) else if there then (true, c3) else again

  -- `for (waited = 0; waited < waitMs; waited += GAP)` makes this many rounds.
  unfoldable pub await_hand_reset : ℕ → ℕ → Ctx W → Bool × Ctx W
  unfolding await_rounds
  await_hand_reset wait_ms addr c =
      await_rounds ((wait_ms + hand_reset_gap_ms - 1) / hand_reset_gap_ms) addr c

  -- The wait for a reset by hand, and the stop that may have ended it.
  unfoldable pub by_hand : ℕ → ℕ → Ctx W → Entry × Ctx W
  unfolding await_hand_reset
  by_hand wait_ms addr c =
      let c1 = tell (waiting addr) (h.waiting_for_reset addr) c in
      let (came, c2) = await_hand_reset wait_ms addr c1 in
      let (stopping, c3) = ask_stop h c2 in
      if came then (ready, c2) else if stopping then (cancelled, c3) else (missing, c3)

  -- `notEntered`, up to the flash: an image that does not fit makes no unit enter.
  unfoldable pub entry : ℕ → ℕ → Ctx W → Entry × Ctx W
  unfolding enter_unit by_hand ask_fits
  entry wait_ms addr c =
      let (fit, c1) = ask_fits h c in
      let (there, c2) = enter_unit addr c1 in
      if not fit
      then (ready, c1)
      else if there
      then (ready, c2)
      else if ltb 0 wait_ms
      then by_hand wait_ms addr c2
      else (missing, c2)

  -- The loop `for (attempt = 2; outcome == Failed && …)`, by the attempts that are left.
  unfoldable pub flash_again : ℕ → ℕ → ℕ → Outcome × Ctx W → Outcome × Ctx W
  unfolding ask_fits ask_in_bootloader call_flash tell
  flash_again zero attempt addr (o, c) = (o, c)
  flash_again (suc left) attempt addr (failed, c) =
      let (fit, c1) = ask_fits h c in
      let (there, c2) = ask_in_bootloader h addr c1 in
      let again =
        flash_again left (attempt + 1) addr
          (call_flash h addr (tell (retried addr attempt) (h.unit_retried addr attempt) c2)) in
      if not fit then (failed, c1) else if not there then (failed, c2) else again
  flash_again (suc left) attempt addr (flashed, c) = (flashed, c)
  flash_again (suc left) attempt addr (stopped, c) = (stopped, c)
  flash_again (suc left) attempt addr (not_entered, c) = (not_entered, c)

  -- The unit's outcome, for one that the run has not given up.
  unfoldable pub attempts : Entry → ℕ → Ctx W → Outcome × Ctx W
  unfolding flash_again
  attempts ready addr c = flash_again (unit_attempts - 1) 2 addr (call_flash h addr c)
  attempts missing addr c = (not_entered, c)
  attempts cancelled addr c = (not_entered, c)
