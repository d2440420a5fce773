-- ===== src/Row/Reflash/Safety.antt =====
-- Pages go to units in their bootloader only: each flash of the log is ordered right after the unit
-- itself answered as a bootloader, or for an image that the flash refuses before it sends anything.
use split_flap.Common.{
  ℕ, zero, suc, ◌+◌, ◌-◌, ◌/◌, ◌≡◌, refl, List, [], ◌∷◌, Bool, true, false, ◌==◌, arith, length,
}
use split_flap.Row.Progress.{Progress, unit_start}
use split_flap.Row.Calls.{
  Outcome, flashed, failed, stopped, not_entered, Hooks, Call, Ctx, fits, asked, paused, waiting,
  retried, flash, tell, ask_stop, ask_fits, ask_in_bootloader, order_bootloader, call_flash,
}
use split_flap.Row.Enter.{
  Entry, ready, missing, cancelled, probe, enter_unit, enter_probes, enter_probe_gap_ms, startup_ms,
  hand_reset_gap_ms, await_rounds, await_hand_reset, by_hand, entry, flash_again, attempts,
}
use split_flap.Row.Reflash.{
  Run, publish, close_turn, conclude, after_entry, turn, run_loop, last_settle, start_run,
  run_targets,
}

-- The calls right before a flash of `addr`, newest first.
abbrev pub allowed : ℕ → List Call → Bool
allowed addr (asked a true ∷ log) = a == addr
allowed addr (retried b n ∷ asked a true ∷ log) = a == addr
allowed addr (fits false ∷ log) = true
allowed addr _ = false

-- Every flash of the log was allowed.
abbrev pub Guarded : List Call → Type 0
Guarded [] = Unit
Guarded (flash addr o ∷ log) = (allowed addr log ≡ true) × Guarded log
Guarded (_ ∷ log) = Guarded log

module _ {W : Type 0} (h : Hooks W) where
  -- An answer of `true` leaves the log ready for a flash of `addr`.
  abbrev Opens : ℕ → Bool × Ctx W → Type 0
  Opens addr (b, c) = Guarded c.log × (b ≡ true → allowed addr c.log ≡ true)

  probe-Opens : (left addr : ℕ) (c : Ctx W) → Guarded c.log → Opens addr (probe h left addr c)
  unfolding probe
  probe-Opens zero addr c g = ground arith
  probe-Opens (suc left) addr c g =
      let c1 = (ask_in_bootloader h addr c).1 in
      ground (
        arith,
        probe-Opens left addr (tell (paused enter_probe_gap_ms) (h.pause enter_probe_gap_ms) c1) g,
      )

  enter_unit-Opens : (addr : ℕ) (c : Ctx W) → Guarded c.log → Opens addr (enter_unit h addr c)
  unfolding enter_unit
  enter_unit-Opens addr c g =
      let c1 = (ask_in_bootloader h addr c).1 in
      let c2 = (order_bootloader h addr c1).1 in
      ground (
        arith,
        probe-Opens (enter_probes - 1) addr (tell (paused startup_ms) (h.pause startup_ms) c2) g,
      )

  await_rounds-Opens :
      (left addr : ℕ) (c : Ctx W) → Guarded c.log → Opens addr (await_rounds h left addr c)
  unfolding await_rounds
  await_rounds-Opens zero addr c g = ground arith
  await_rounds-Opens (suc left) addr c g =
      let c1 = (ask_stop h c).1 in
      let c2 = tell (paused hand_reset_gap_ms) (h.pause hand_reset_gap_ms) c1 in
      let c3 = (ask_in_bootloader h addr c2).1 in ground (arith, await_rounds-Opens left addr c3 g)

  by_hand_lem :
      (wait_ms addr : ℕ) (c : Ctx W)
      → Guarded c.log
      → let (e, c') = by_hand h wait_ms addr c in
        Guarded c'.log × (e ≡ ready → allowed addr c'.log ≡ true)
  unfolding by_hand await_hand_reset
  by_hand_lem wait_ms addr c g =
      let c1 = tell (waiting addr) (h.waiting_for_reset addr) c in
      ground (
        arith,
        await_rounds-Opens ((wait_ms + hand_reset_gap_ms - 1) / hand_reset_gap_ms) addr c1 g,
      )

  entry_lem :
      (wait_ms addr : ℕ) (c : Ctx W)
      → Guarded c.log
      → let (e, c') = entry h wait_ms addr c in
        Guarded c'.log × (e ≡ ready → allowed addr c'.log ≡ true)
  unfolding entry
  entry_lem wait_ms addr c g =
      let c1 = (ask_fits h c).1 in
      let c2 = (enter_unit h addr c1).1 in
      let entered = enter_unit-Opens addr c1 g in
      ground (arith, entered, by_hand_lem wait_ms addr c2 entered.0)

  flash_again-Guarded :
      (left attempt addr : ℕ) (o : Outcome) (c : Ctx W)
      → Guarded c.log
      → Guarded (flash_again h left attempt addr (o, c)).1.log
  unfolding flash_again
  flash_again-Guarded zero attempt addr o c g = g
  flash_again-Guarded (suc left) attempt addr flashed c g = g
  flash_again-Guarded (suc left) attempt addr stopped c g = g
  flash_again-Guarded (suc left) attempt addr not_entered c g = g
  flash_again-Guarded (suc left) attempt addr failed c g =
      let c1 = (ask_fits h c).1 in
      let c2 = (ask_in_bootloader h addr c1).1 in
      let c3 = tell (retried addr attempt) (h.unit_retried addr attempt) c2 in
      let (o, c4) = call_flash h addr c3 in
      ground (arith, flash_again-Guarded left (attempt + 1) addr o c4)

  attempts-Guarded :
      (e : Entry) (addr : ℕ) (c : Ctx W)
      → Guarded c.log
      → (e ≡ ready → allowed addr c.log ≡ true)
      → Guarded (attempts h e addr c).1.log
  unfolding attempts
  attempts-Guarded ready addr c g a =
      let (o, c1) = call_flash h addr c in flash_again-Guarded 2 2 addr o c1 (a refl, g)
  attempts-Guarded missing addr c g a = g
  attempts-Guarded cancelled addr c g a = g

  abbrev IsGuarded : Run W → Type 0
  IsGuarded r = Guarded r.ctx.log

  close_turn-IsGuarded :
      (batch_size left : ℕ) (r : Run W) → IsGuarded r → IsGuarded (close_turn h batch_size left r).1
  unfolding close_turn
  close_turn-IsGuarded batch_size left r g = ground arith

  conclude-IsGuarded :
      (batch_size left addr : ℕ) (o : Outcome) (r : Run W)
      → IsGuarded r
      → IsGuarded (conclude h batch_size left addr o r).1
  unfolding conclude
  conclude-IsGuarded batch_size left addr stopped r g = g
  conclude-IsGuarded batch_size left addr flashed r g = ground arith
  conclude-IsGuarded batch_size left addr failed r g = ground arith
  conclude-IsGuarded batch_size left addr not_entered r g = ground arith

  after_entry-IsGuarded :
      (batch_size left addr : ℕ) (e : Entry) (r : Run W)
      → IsGuarded r
      → (e ≡ ready → allowed addr r.ctx.log ≡ true)
      → IsGuarded (after_entry h batch_size left addr e r).1
  unfolding after_entry
  after_entry-IsGuarded batch_size left addr cancelled r g a = g
  after_entry-IsGuarded batch_size left addr ready r g a =
      let (o, c) = attempts h ready addr r.ctx in
      conclude-IsGuarded batch_size left addr o (record r { ctx = c })
        (attempts-Guarded ready addr r.ctx g a)
  after_entry-IsGuarded batch_size left addr missing r g a =
      let (o, c) = attempts h missing addr r.ctx in
      conclude-IsGuarded batch_size left addr o (record r { ctx = c })
        (attempts-Guarded missing addr r.ctx g a)

  turn-IsGuarded :
      (batch_size wait_ms left addr : ℕ) (r : Run W)
      → IsGuarded r
      → IsGuarded (turn h batch_size wait_ms left addr r).1
  unfolding turn
  turn-IsGuarded batch_size wait_ms left addr r g =
      let r1 = publish h (record r { progress = unit_start r.progress addr }) in
      let (e, c) = entry h wait_ms addr r1.ctx in
      let (g1, a) = entry_lem wait_ms addr r1.ctx g in
      after_entry-IsGuarded batch_size left addr e (record r1 { ctx = c }) g1 a

  run_loop-IsGuarded :
      (batch_size wait_ms : ℕ) (targets : List ℕ) (r : Run W)
      → IsGuarded r
      → IsGuarded (run_loop h batch_size wait_ms targets r)
  unfolding run_loop
  run_loop-IsGuarded batch_size wait_ms [] r g = g
  run_loop-IsGuarded batch_size wait_ms (addr ∷ targets) r g =
      let c = (ask_stop h r.ctx).1 in
      let turned = turn h batch_size wait_ms (length targets) addr (record r { ctx = c }) in
      let g1 = turn-IsGuarded batch_size wait_ms (length targets) addr (record r { ctx = c }) g in
      ground (arith, g1, run_loop-IsGuarded batch_size wait_ms targets turned.1 g1)

  last_settle-IsGuarded : (r : Run W) → IsGuarded r → IsGuarded (last_settle h r)
  unfolding last_settle
  last_settle-IsGuarded r g = ground arith

  -- Over the whole run, for any bus and any plan: a unit's pages are sent only right after that
  -- unit answered as a bootloader (or the retry notice behind such an answer), or for an image that
  -- does not fit, which the flash itself refuses.
  pub run_targets-Guarded :
      (batch_size wait_ms : ℕ) (targets : List ℕ) (progress : Progress) (world : W)
      → Guarded (run_targets h batch_size wait_ms targets progress world).ctx.log
  unfolding run_targets
  run_targets-Guarded batch_size wait_ms targets progress world =
      last_settle-IsGuarded (run_loop h batch_size wait_ms targets (start_run h progress world)) (
        run_loop-IsGuarded batch_size wait_ms targets (start_run h progress world)
          (unfold start_run in tt))
