-- ===== src/Row/Quiet.antt =====
-- What reaching a unit leaves alone: the calls of `enter_unit` and of the wait for a reset by hand
-- flash no unit, the attempts of a unit take it at most once, and none reports or settles a unit.
use split_flap.Common.{
  ap, not, if_both, ℕ, zero, suc, ◌+◌, ◌-◌, ◌/◌, ◌≡◌, refl, List, [], ◌∷◌, ◌++◌, ltb, if◌then◌else◌,
  arith, length,
}
use split_flap.Row.Calls.{
  Outcome, flashed, failed, stopped, not_entered, Hooks, Call, Ctx, paused, waiting, retried, flash,
  restored, settled, tell, ask_stop, ask_fits, ask_in_bootloader, order_bootloader, call_flash,
}
use split_flap.Row.Enter.{
  Entry, ready, missing, cancelled, probe, enter_unit, enter_probes, enter_probe_gap_ms, startup_ms,
  hand_reset_gap_ms, unit_attempts, await_rounds, await_hand_reset, by_hand, entry, flash_again,
  attempts,
}

-- The units that the bus file was told of as flashed, and those that were settled, oldest first.
abbrev pub restored_units : List Call → List ℕ
restored_units [] = []
restored_units (restored addr ∷ log) = restored_units log ++ addr ∷ []
restored_units (_ ∷ log) = restored_units log

-- A unit whose flash ended so is behind those that took the image.
abbrev pub takes : Outcome → ℕ → List ℕ → List ℕ
takes flashed addr units = units ++ addr ∷ []
takes _ addr units = units

-- The units of the flashes that ended well, oldest first.
abbrev pub taken_units : List Call → List ℕ
taken_units [] = []
taken_units (flash addr o ∷ log) = takes o addr (taken_units log)
taken_units (_ ∷ log) = taken_units log

abbrev pub settled_units : List Call → List ℕ
settled_units [] = []
settled_units (settled addrs ∷ log) = settled_units log ++ addrs
settled_units (_ ∷ log) = settled_units log

-- The largest settle.
abbrev pub largest_settle : List Call → ℕ
largest_settle [] = 0
largest_settle (settled addrs ∷ log) =
    if ltb (largest_settle log) (length addrs) then length addrs else largest_settle log
largest_settle (_ ∷ log) = largest_settle log

-- Calls of the bus that neither report nor settle a unit.
abbrev pub Quiet : List Call → List Call → Type 0
Quiet before after =
    (restored_units after ≡ restored_units before)
    × (settled_units after ≡ settled_units before)
    × (largest_settle after ≡ largest_settle before)

-- Nor flash one.
abbrev pub Idle : List Call → List Call → Type 0
Idle before after = Quiet before after × (taken_units after ≡ taken_units before)

module _ {W : Type 0} (h : Hooks W) where
  probe-Idle : (left addr : ℕ) (c : Ctx W) → Idle c.log (probe h left addr c).1.log
  unfolding probe
  probe-Idle zero addr c = ((refl, refl, refl), refl)
  probe-Idle (suc left) addr c =
      let c1 = (ask_in_bootloader h addr c).1 in
      ground (
        arith,
        probe-Idle left addr (tell (paused enter_probe_gap_ms) (h.pause enter_probe_gap_ms) c1),
      )

  await_rounds-Idle : (left addr : ℕ) (c : Ctx W) → Idle c.log (await_rounds h left addr c).1.log
  unfolding await_rounds
  await_rounds-Idle zero addr c = ((refl, refl, refl), refl)
  await_rounds-Idle (suc left) addr c =
      let c1 = (ask_stop h c).1 in
      let c2 = tell (paused hand_reset_gap_ms) (h.pause hand_reset_gap_ms) c1 in
      let c3 = (ask_in_bootloader h addr c2).1 in ground (arith, await_rounds-Idle left addr c3)

  enter_unit-Idle : (addr : ℕ) (c : Ctx W) → Idle c.log (enter_unit h addr c).1.log
  unfolding enter_unit
  enter_unit-Idle addr c =
      let c1 = (ask_in_bootloader h addr c).1 in
      let c2 = (order_bootloader h addr c1).1 in
      ground (
        arith,
        probe-Idle (enter_probes - 1) addr (tell (paused startup_ms) (h.pause startup_ms) c2),
      )

  by_hand-Idle : (wait_ms addr : ℕ) (c : Ctx W) → Idle c.log (by_hand h wait_ms addr c).1.log
  unfolding by_hand await_hand_reset
  by_hand-Idle wait_ms addr c =
      let c1 = tell (waiting addr) (h.waiting_for_reset addr) c in
      ground
        (arith, await_rounds-Idle ((wait_ms + hand_reset_gap_ms - 1) / hand_reset_gap_ms) addr c1)

  pub entry-Idle : (wait_ms addr : ℕ) (c : Ctx W) → Idle c.log (entry h wait_ms addr c).1.log
  unfolding entry
  entry-Idle wait_ms addr c =
      let c1 = (ask_fits h c).1 in
      let c2 = (enter_unit h addr c1).1 in
      ground (arith, enter_unit-Idle addr c1, by_hand-Idle wait_ms addr c2)

  flash_again-Quiet :
      (left attempt addr : ℕ) (o : Outcome) (c : Ctx W)
      → Quiet c.log (flash_again h left attempt addr (o, c)).1.log
  unfolding flash_again
  flash_again-Quiet zero attempt addr o c = (refl, refl, refl)
  flash_again-Quiet (suc left) attempt addr flashed c = (refl, refl, refl)
  flash_again-Quiet (suc left) attempt addr stopped c = (refl, refl, refl)
  flash_again-Quiet (suc left) attempt addr not_entered c = (refl, refl, refl)
  flash_again-Quiet (suc left) attempt addr failed c =
      let c1 = (ask_fits h c).1 in
      let c2 = (ask_in_bootloader h addr c1).1 in
      let c3 = tell (retried addr attempt) (h.unit_retried addr attempt) c2 in
      let (o, c4) = call_flash h addr c3 in
      ground (arith, flash_again-Quiet left (attempt + 1) addr o c4)

  pub attempts-Quiet : (e : Entry) (addr : ℕ) (c : Ctx W) → Quiet c.log (attempts h e addr c).1.log
  unfolding attempts
  attempts-Quiet ready addr c =
      let (o, c1) = call_flash h addr c in flash_again-Quiet (unit_attempts - 1) 2 addr o c1
  attempts-Quiet missing addr c = (refl, refl, refl)
  attempts-Quiet cancelled addr c = (refl, refl, refl)

  -- The attempts take a unit where their outcome is that it was flashed, and once.
  flash_again-takes :
      (left attempt addr : ℕ) (o : Outcome) (c : Ctx W) (units : List ℕ)
      → taken_units c.log ≡ takes o addr units
      → let r = flash_again h left attempt addr (o, c) in taken_units r.1.log ≡ takes r.0 addr units
  unfolding flash_again
  flash_again-takes zero attempt addr o c units e = e
  flash_again-takes (suc left) attempt addr flashed c units e = e
  flash_again-takes (suc left) attempt addr stopped c units e = e
  flash_again-takes (suc left) attempt addr not_entered c units e = e
  flash_again-takes (suc left) attempt addr failed c units e =
      let (fit, c1) = ask_fits h c in
      let (there, c2) = ask_in_bootloader h addr c1 in
      let c3 = tell (retried addr attempt) (h.unit_retried addr attempt) c2 in
      let (o, c4) = call_flash h addr c3 in
      let P = λ (r : Outcome × Ctx W). taken_units r.1.log ≡ takes r.0 addr units in
      if_both P (not fit) _ _ e (
        if_both P (not there) _ _ e
          (flash_again-takes left (attempt + 1) addr o c4 units (ap (takes o addr) e)))

  pub attempts-takes :
      (e : Entry) (addr : ℕ) (c : Ctx W)
      → let r = attempts h e addr c in taken_units r.1.log ≡ takes r.0 addr (taken_units c.log)
  unfolding attempts
  attempts-takes ready addr c =
      let (o, c1) = call_flash h addr c in
      flash_again-takes (unit_attempts - 1) 2 addr o c1 (taken_units c.log) refl
  attempts-takes missing addr c = refl
  attempts-takes cancelled addr c = refl
