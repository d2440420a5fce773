-- ===== src/Row/Lost.antt =====
-- firmware/v2/shared/UnitRescuePolicy.h: when a row master looks for a unit that it lost, and rescueTick
-- of Master/DisplayTask.cpp, which applies it. Printing, the facts that it mirrors
-- and the rescan of a recheck are left out; a recheck reads the clock when its tick starts.
pub mod Cadence
mod Tests
use split_flap.Common.{
  ℕ, ◌+◌, List, [], ◌∷◌, Bool, true, false, not, ◌&&◌, ◌||◌, ◌==◌, ltb, leb, if◌then◌else◌, sub32,
  u32, bump16,
}
use split_flap.Bus.Rescue.{UnitRescueProbe, bootloader}

abbrev pub retry_ms : ℕ
retry_ms = 60000

-- `UnitRescueState`
pub record UnitRescueState : Type 0 where
  pub attempted : Bool
  pub last_attempt : ℕ
  pub restore_pending : Bool
  pub attempts : ℕ  -- uint16_t
  pub exits : ℕ  -- uint16_t

-- The fields of a unit's facts that the policy reads; `held` is `twibootHeldForCrashing` of them.
pub record Facts : Type 0 where
  pub state : ℕ
  pub stale : Bool
  pub status_valid : Bool
  pub held : Bool

unfoldable pub is_lost : Facts → Bool
is_lost u = u.state == 1 && u.stale

unfoldable pub rescue_due : Facts → UnitRescueState → ℕ → Bool
unfolding is_lost
rescue_due u r now =
    if not (is_lost u)
    then false
    else if not r.attempted
    then true
    else leb retry_ms (sub32 now r.last_attempt)

abbrev pub found_bootloader : UnitRescueProbe → Bool
found_bootloader bootloader = true
found_bootloader _ = false

unfoldable pub note_attempt : UnitRescueState → ℕ → UnitRescueProbe → UnitRescueState
note_attempt r now probe = record r {
  attempted = true;
  last_attempt = now;
  attempts = bump16 r.attempts;
  exits = if found_bootloader probe then bump16 r.exits else r.exits;
  restore_pending = true;
}

unfoldable pub held_recheck_due : Facts → UnitRescueState → ℕ → Bool
held_recheck_due u r now = u.state == 2 && u.held && leb retry_ms (sub32 now r.last_attempt)

unfoldable pub rescue_observe : UnitRescueState → Facts → Bool × UnitRescueState
unfolding is_lost
rescue_observe r u =
    if is_lost u || not u.status_valid
    then (false, r)
    else if not r.restore_pending
    then (false, record r { attempted = false })
    else (true, record r { attempted = false; restore_pending = false })

-- What a tick did.
pub data Did : Type 0 where
  nothing reshown rechecked probed : Did

-- What a tick meets: the milliseconds since boot when it starts and when its probe is over, the facts,
-- what a probe finds.
pub record Beat : Type 0 where
  pub at : ℕ
  pub ended : ℕ
  pub facts : Facts
  pub found : UnitRescueProbe

unfoldable pub rescue_tick : Beat → UnitRescueState → Did × UnitRescueState
unfolding rescue_due note_attempt held_recheck_due rescue_observe
rescue_tick x r =
    let (back, s) = rescue_observe r x.facts in
    let now = u32 x.at in
    if back
    then (reshown, s)
    else if held_recheck_due x.facts s now
    then (rechecked, record s { last_attempt = now })
    else if rescue_due x.facts s now
    then (probed, note_attempt s (u32 x.ended) x.found)
    else (nothing, s)

abbrev pub is_probed : Did → Bool
is_probed probed = true
is_probed _ = false

abbrev pub is_reshown : Did → Bool
is_reshown reshown = true
is_reshown _ = false

-- The ticks of a run: when it probed the unit, and how often it showed the frame again.
unfoldable pub probe_times : List Beat → UnitRescueState → List ℕ
unfolding rescue_tick
probe_times [] r = []
probe_times (x ∷ xs) r =
    let (did, s) = rescue_tick x r in
    let rest = probe_times xs s in if is_probed did then x.at ∷ rest else rest

unfoldable pub reshows : List Beat → UnitRescueState → ℕ
unfolding rescue_tick
reshows [] r = 0
reshows (x ∷ xs) r =
    let (did, s) = rescue_tick x r in
    let rest = reshows xs s in if is_reshown did then rest + 1 else rest
