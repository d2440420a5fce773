-- ===== src/Row/Motion.antt =====
-- firmware/v2/shared/MotionBudget.h: how many units may move at once, and when none may; and the
-- wait for a free slot of Master/UnitBus.cpp.
pub mod Movers
pub mod Cap
mod Tests
use split_flap.Common.{
  ℕ, zero, suc, ◌+◌, ◌-◌, ◌/◌, List, [], ◌∷◌, Bool, true, false, not, ◌&&◌, ◌||◌, ◌==◌, ◌!=◌, ltb,
  leb, if◌then◌else◌, get_or, set, replicate, sub32, bump16,
}

abbrev pub budget_max : ℕ
budget_max = 4

abbrev pub budget_min : ℕ
budget_min = 1

abbrev pub sag_low_mv : ℕ
sag_low_mv = 4700

abbrev pub restore_ms : ℕ
restore_ms = 600000

abbrev pub start_grace_ms : ℕ
start_grace_ms = 150

abbrev pub stuck_ms : ℕ
stuck_ms = 20000

abbrev pub radio_settle_ms : ℕ
radio_settle_ms = 2000

abbrev pub units_max : ℕ
units_max = 16

-- A slot of the tracker: `unit[k]` and `startMs[k]`.
pub record Slot : Type 0 where
  pub unit : ℕ
  pub start : ℕ

abbrev pub no_slot : Slot
no_slot = record { unit = 0; start = 0 }

-- `MotionTracker`: four slots, `count` of them in use.
pub record Tracker : Type 0 where
  pub slots : List Slot
  pub count : ℕ

abbrev pub empty_tracker : Tracker
empty_tracker = record { slots = replicate budget_max no_slot; count = 0 }

unfoldable pub tracker_full : Tracker → ℕ → Bool
tracker_full t cap = let c = if ltb cap budget_min then budget_min else cap in leb c t.count

unfoldable pub tracker_add : Tracker → ℕ → ℕ → Tracker
tracker_add t unit_index now = if leb budget_max t.count then t else record {
  slots = set t.slots t.count (record { unit = unit_index; start = now });
  count = t.count + 1;
}

-- The loop of `motionTrackerRemove` from `j` on; the first argument is the fuel.
unfoldable pub shift_down : ℕ → ℕ → ℕ → List Slot → List Slot
shift_down zero j count slots = slots
shift_down (suc fuel) j count slots =
    let rest = shift_down fuel (suc j) count (set slots j (get_or slots (suc j) no_slot)) in
    if ltb (suc j) count then rest else slots

unfoldable pub tracker_remove : Tracker → ℕ → Tracker
unfolding shift_down
tracker_remove t k = record { slots = shift_down t.count k t.count t.slots; count = t.count - 1 }

-- The reply to a moving-poll: 0, -1, anything else.
pub data Reply : Type 0 where
  idle no_answer moving : Reply

abbrev pub is_moving : Reply → Bool
is_moving moving = true
is_moving _ = false

unfoldable pub tracker_observe : Tracker → ℕ → Reply → ℕ → Bool × Tracker
unfolding tracker_remove
tracker_observe t k reply now =
    let age = sub32 now (get_or t.slots k no_slot).start in
    if leb t.count k
    then (false, t)
    else if ltb age start_grace_ms
    then (false, t)
    else if is_moving reply && ltb age stuck_ms
    then (false, t)
    else (true, tracker_remove t k)

-- What `waitForMotionSlot` calls.
pub record Poll (W : Type 0) : Type 0 where
  pub aborted : W → Bool × W
  pub check_if_moving : ℕ → W → Reply × W
  pub now_ms : W → ℕ × W
  pub pause : W → W

module _ {W : Type 0} (poll : Poll W) where
  -- The polls of a round, from slot `k - 1` down to slot 0.
  unfoldable pub poll_round : ℕ → Tracker → W → Tracker × W
  unfolding tracker_observe
  poll_round zero t w = (t, w)
  poll_round (suc k) t w =
      let (reply, w1) = poll.check_if_moving (get_or t.slots k no_slot).unit w in
      let (now, w2) = poll.now_ms w1 in
      let (retired, u) = tracker_observe t k reply now in poll_round k u w2

  -- `waitForMotionSlot`; the first argument is the fuel. The Bool is its return value.
  unfoldable pub wait_for_slot : ℕ → ℕ → Tracker → W → Bool × Tracker × W
  unfolding tracker_full poll_round
  wait_for_slot zero cap t w = (false, t, w)
  wait_for_slot (suc fuel) cap t w =
      let (stop, w1) = poll.aborted w in
      let (u, w2) = poll_round t.count t w1 in
      let w3 = if tracker_full u cap then poll.pause w2 else w2 in
      let again = wait_for_slot fuel cap u w3 in
      if not (tracker_full t cap) then (true, t, w) else if stop then (false, t, w1) else again

  -- A unit's turn in a render: the wait, the write of its letter, its slot.
  unfoldable pub admit : ℕ → ℕ → ℕ → (W → W) → Tracker → W → Bool × Tracker × W
  unfolding wait_for_slot tracker_add
  admit fuel cap unit_index command t w =
      let (free, u, w1) = wait_for_slot fuel cap t w in
      let (now, w2) = poll.now_ms (command w1) in
      if free then (true, tracker_add u unit_index now, w2) else (false, u, w1)

-- `MotionBudgetState`
pub record Budget : Type 0 where
  pub cap : ℕ  -- uint8_t
  pub last_change : ℕ
  pub sag_events : ℕ  -- uint16_t
  pub last_vmin : List ℕ  -- 16 of them

abbrev pub start_budget : Budget
start_budget = record {
  cap = budget_max;
  last_change = 0;
  sag_events = 0;
  last_vmin = replicate units_max 0;
}

unfoldable pub observe_vmin : Budget → ℕ → ℕ → ℕ → Bool × Budget
observe_vmin b unit_index vmin now =
    let prev = get_or b.last_vmin unit_index 0 in
    let c = record b { last_vmin = set b.last_vmin unit_index vmin } in
    let halved = b.cap / 2 in
    if vmin == 0
    then (false, b)
    else if leb units_max unit_index
    then (false, b)
    else if leb sag_low_mv vmin
    then (false, c)
    else if prev != 0 && leb prev vmin
    then (false, c)
    else (
      true,
      record c {
        sag_events = bump16 b.sag_events;
        cap = if ltb halved budget_min then budget_min else halved;
        last_change = now;
      },
    )

unfoldable pub budget_tick : Budget → ℕ → Bool × Budget
budget_tick b now =
    if leb budget_max b.cap
    then (false, b)
    else if ltb (sub32 now b.last_change) restore_ms
    then (false, b)
    else (true, record b { cap = b.cap + 1; last_change = now })

-- `motionBudgetFold` of DisplayTask.cpp, for a unit whose vitals are valid or not.
unfoldable pub budget_fold : Budget → ℕ → Bool → ℕ → ℕ → Bool × Budget
unfolding observe_vmin budget_tick
budget_fold b unit_index vitals_valid vmin now =
    let (sagged, c) = observe_vmin b unit_index vmin now in
    let d = if vitals_valid then c else b in
    if vitals_valid && sagged then (true, d) else budget_tick d now

-- `MotionRadioGate`
pub record RadioGate : Type 0 where
  pub resolved : Bool
  pub busy : Bool
  pub quiet_since : ℕ

abbrev pub start_gate : RadioGate
start_gate = record { resolved = false; busy = true; quiet_since = 0 }

unfoldable pub radio_observe : RadioGate → Bool → ℕ → RadioGate
radio_observe g radio_busy now =
    if radio_busy
    then record g { busy = true }
    else if g.busy || not g.resolved
    then record { resolved = true; busy = false; quiet_since = now }
    else g

unfoldable pub radio_quiet : RadioGate → ℕ → Bool
radio_quiet g now =
    if not g.resolved || g.busy then false else leb radio_settle_ms (sub32 now g.quiet_since)

-- `motionRadioHoldExpired`, at which waitRadioQuiet goes on although the gate is not quiet.
unfoldable pub radio_hold_expired : ℕ → ℕ → Bool
radio_hold_expired hold_start now = leb 35000 (sub32 now hold_start)
