-- ===== src/Row/Lost/Cadence.antt =====
-- firmware/v2/shared/UnitRescuePolicy.h: how often a lost unit is looked for, and how often its frame is
-- shown again.
use split_flap.Common.{
  ℕ, ◌+◌, ◌≤◌, ◌≡◌, ◌∙◌, List, [], ◌∷◌, Bool, true, false, not, ◌||◌, leb, if◌then◌else◌, if_known,
  inl, inr, ◌⊎◌, length, arith, sub32, u32,
}
use split_flap.Row.Lost.{
  retry_ms, UnitRescueState, is_lost, rescue_due, note_attempt, held_recheck_due, rescue_observe,
  Beat, rescue_tick, is_probed, is_reshown, probe_times, reshows,
}

-- Ticks from `t` on, each over before the next starts, none of which finds the unit answering.
abbrev pub Silent : ℕ → List Beat → Type 0
Silent t [] = Unit
Silent t (x ∷ xs) =
    (t ≤ x.at)
    × (x.at ≤ x.ended)
    × (is_lost x.facts || not x.facts.status_valid ≡ true)
    × Silent x.ended xs

-- Times that come a retry or more after `t`, and after each other.
abbrev pub Apart : ℕ → List ℕ → Type 0
Apart t [] = Unit
Apart t (r ∷ rs) = t + retry_ms ≤ r × Apart r rs

abbrev pub IsSpaced : List ℕ → Type 0
IsSpaced [] = Unit
IsSpaced (r ∷ rs) = Apart r rs

probed_tick :
    (x : Beat) (r : UnitRescueState)
    → is_lost x.facts || not x.facts.status_valid ≡ true
    → is_probed (rescue_tick x r).0 ≡ true
    → ((rescue_tick x r).1.attempted ≡ true)
      × ((rescue_tick x r).1.last_attempt ≡ u32 x.ended)
      × (r.attempted ≡ true → leb retry_ms (sub32 (u32 x.at) r.last_attempt) ≡ true)
unfolding rescue_tick rescue_due note_attempt held_recheck_due rescue_observe
probed_tick x r s p = (ground (arith, s), ground (arith, s), λ a. ground (arith, s, a))

other_tick :
    (x : Beat) (r : UnitRescueState)
    → is_lost x.facts || not x.facts.status_valid ≡ true
    → is_probed (rescue_tick x r).0 ≡ false
    → ((rescue_tick x r).1.attempted ≡ r.attempted)
      × (((rescue_tick x r).1.last_attempt ≡ r.last_attempt)
          ⊎ ((rescue_tick x r).1.last_attempt ≡ u32 x.at))
unfolding rescue_tick rescue_due note_attempt held_recheck_due rescue_observe
other_tick x r s p = (ground (arith, s), ground (arith, s))

rested_lem :
    (r now : ℕ) → r ≤ now → leb retry_ms (sub32 (u32 now) (u32 r)) ≡ true → r + retry_ms ≤ now
rested_lem r now h e = ground arith

-- `last` is the time that the state has of the last look, `r` a probe before it.
Apart-probe_times :
    (r last t : ℕ) (xs : List Beat) (s : UnitRescueState)
    → r ≤ last
    → last ≤ t
    → Silent t xs
    → s.attempted ≡ true
    → s.last_attempt ≡ u32 last
    → Apart r (probe_times xs s)
unfolding probe_times
Apart-probe_times r last t [] s h l o a e = tt
Apart-probe_times r last t (x ∷ xs) s h l (o, k, silent, rest) a e =
    let u = rescue_tick x s in
    if_known (Apart r) (is_probed u.0) (x.at ∷ probe_times xs u.1) (probe_times xs u.1)
      (λ p.
        let (attempted, now, cool) = probed_tick x s silent p in
        let cool' : leb retry_ms (sub32 (u32 x.at) (u32 last)) ≡ true = rw e at (cool a) in
        let far = rested_lem last x.at (omega arith) cool' in
        (
          omega (arith, far),
          Apart-probe_times x.at x.ended x.ended xs u.1 (omega arith) (omega arith) rest attempted
              now,
        ))
      (λ p.
        let (attempted, change) = other_tick x s silent p in
        elim change [
          | inl same ↦
              Apart-probe_times r last x.ended xs u.1 h (omega arith) rest (attempted ∙ a)
                (same ∙ e)
          | inr now ↦
              Apart-probe_times r x.at x.ended xs u.1 (omega arith) (omega arith) rest
                (attempted ∙ a) now
        ])

-- While a unit does not answer, ticks that follow one another in time start its probes 60000 ms or
-- more apart, from any state and over any length of run, the wrap of the clock included.
pub probe_times-IsSpaced :
    (t : ℕ) (xs : List Beat) (s : UnitRescueState) → Silent t xs → IsSpaced (probe_times xs s)
unfolding probe_times
probe_times-IsSpaced t [] s o = tt
probe_times-IsSpaced t (x ∷ xs) s (o, k, silent, rest) =
    let u = rescue_tick x s in
    if_known IsSpaced (is_probed u.0) (x.at ∷ probe_times xs u.1) (probe_times xs u.1)
      (λ p.
        let (attempted, now, cool) = probed_tick x s silent p in
        Apart-probe_times x.at x.ended x.ended xs u.1 (omega arith) (omega arith) rest attempted
          now)
      (λ p. probe_times-IsSpaced x.ended xs u.1 rest)

-- A frame that waits to be shown again.
abbrev pub pending : UnitRescueState → ℕ
pending s = if s.restore_pending then 1 else 0

tick-pending :
    (x : Beat) (s : UnitRescueState)
    → (if is_reshown (rescue_tick x s).0 then 1 else 0) + pending (rescue_tick x s).1
      ≤ pending s + (if is_probed (rescue_tick x s).0 then 1 else 0)
unfolding rescue_tick rescue_due note_attempt held_recheck_due rescue_observe
tick-pending x s = ground arith

-- Over any ticks, the frame is shown again at most once for each probe, and once more where it waited
-- to be at the start.
pub reshows-bounded :
    (xs : List Beat) (s : UnitRescueState) → reshows xs s ≤ length (probe_times xs s) + pending s
unfolding reshows probe_times
reshows-bounded [] s = ground arith
reshows-bounded (x ∷ xs) s =
    let u = rescue_tick x s in
    let rest = reshows-bounded xs u.1 in
    let here = tick-pending x s in counted (is_reshown u.0) (is_probed u.0) here rest
  where
    counted :
        (shown looked : Bool)
        → (if shown then 1 else 0) + pending (rescue_tick x s).1
          ≤ pending s + (if looked then 1 else 0)
        → reshows xs (rescue_tick x s).1
          ≤ length (probe_times xs (rescue_tick x s).1) + pending (rescue_tick x s).1
        → (if shown then reshows xs (rescue_tick x s).1 + 1 else reshows xs (rescue_tick x s).1)
          ≤ length (
              if looked
              then x.at ∷ probe_times xs (rescue_tick x s).1
              else probe_times xs (rescue_tick x s).1)
            + pending s
    counted true true here rest = omega (arith, here, rest)
    counted true false here rest = omega (arith, here, rest)
    counted false true here rest = omega (arith, here, rest)
    counted false false here rest = omega (arith, here, rest)
