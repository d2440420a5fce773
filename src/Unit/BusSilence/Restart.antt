-- ===== src/Unit/BusSilence/Restart.antt =====
-- A unit restarts itself only behind its gate, late in a silence, with its record written, and
-- once.
use split_flap.Common.{
  ℕ, suc, ◌≤◌, ◌≡◌, inl, inr, refl, ◌∙◌, List, [], ◌∷◌, Bool, true, false, ◌&&◌, arith, sub32,
  if◌then◌else◌, Bool-cases, All,
}
use split_flap.Wire.BusRecord.{BusRecord}
use split_flap.Unit.BusSilence.{
  BusSilence, Sample, Pass, Todo, restart_ms, contact_frames_needed, notice, watch, reinit,
  save_mark, restart, silence_steps, quiet_pass, heard, tick,
}

-- The steps before the last leave the restart alone.
before_restart :
    (x : Sample) (quiet : ℕ) (p : Pass)
    → let q = save_mark quiet (reinit x (watch x p)) in
      (q.todo.restart ≡ p.todo.restart)
      × (q.s.restarted ≡ p.s.restarted)
      × (q.s.silent ≡ p.s.silent)
      × (q.s.last_frames ≡ p.s.last_frames)
      × (q.s.contact_frames ≡ p.s.contact_frames)
      × (q.s.heard_ms ≡ p.s.heard_ms)
unfolding save_mark reinit watch
before_restart x quiet p = ground arith

-- A tick asks for the restart of the unit only if the gate is on, the unit was in contact, nothing
-- arrived for 20 minutes and this silence had no restart yet; and then it also asks for the record
-- to be written and remembers the restart.
pub restart_needs :
    (s : BusSilence) (rec : BusRecord) (x : Sample)
    → (tick s rec x).todo.restart ≡ true
    → (x.restart_allowed ≡ true)
      × (x.frames ≡ s.last_frames)
      × (contact_frames_needed ≤ s.contact_frames)
      × (restart_ms ≤ sub32 x.now_ms s.heard_ms)
      × (s.silent && s.restarted ≡ false)
      × ((tick s rec x).todo.save ≡ true)
      × ((tick s rec x).s.restarted ≡ true)
unfolding tick heard quiet_pass notice silence_steps restart
restart_needs s rec x h = ground (arith, before_restart x)

-- How many of the ticks over `xs` ask for what `asked` reads in their result.
unfoldable pub asks : (Todo → Bool) → BusSilence → BusRecord → List Sample → ℕ
asks asked s rec [] = 0
asks asked s rec (x ∷ xs) =
    let p = tick s rec x in
    let rest = asks asked p.s p.rec xs in if asked p.todo then suc rest else rest

-- No frame arrives in the samples.
abbrev pub Unaddressed : ℕ → Sample → Type 0
Unaddressed frames x = x.frames ≡ frames

pub tick-last_frames :
    (s : BusSilence) (rec : BusRecord) (x : Sample)
    → x.frames ≡ s.last_frames
    → (tick s rec x).s.last_frames ≡ s.last_frames
unfolding tick heard quiet_pass notice silence_steps restart
tick-last_frames s rec x h = ground (arith, before_restart x)

restart_sticks :
    (s : BusSilence) (rec : BusRecord) (x : Sample)
    → x.frames ≡ s.last_frames
    → s.silent && s.restarted ≡ true
    → ((tick s rec x).todo.restart ≡ false)
      × ((tick s rec x).s.silent && (tick s rec x).s.restarted ≡ true)
unfolding tick heard quiet_pass notice silence_steps restart
restart_sticks s rec x e h = ground (arith, before_restart x)

restart_marks :
    (s : BusSilence) (rec : BusRecord) (x : Sample)
    → (tick s rec x).todo.restart ≡ true
    → (tick s rec x).s.silent && (tick s rec x).s.restarted ≡ true
unfolding tick heard quiet_pass notice silence_steps restart
restart_marks s rec x h = ground (arith, before_restart x)

no_restart_after :
    (s : BusSilence) (rec : BusRecord) (xs : List Sample) (frames : ℕ)
    → s.last_frames ≡ frames
    → All (Unaddressed frames) xs
    → s.silent && s.restarted ≡ true
    → asks (λ t. t.restart) s rec xs ≡ 0
unfolding asks
no_restart_after s rec [] frames e all h = refl
no_restart_after s rec (x ∷ xs) frames e all h =
    let same : x.frames ≡ s.last_frames = cc (all.0) in
    let stuck = restart_sticks s rec x same h in
    rw (stuck.0) (
      no_restart_after (tick s rec x).s (tick s rec x).rec xs frames
        (tick-last_frames s rec x same ∙ e) all.1 stuck.1)

-- Over any time without a frame for the unit, whatever the lines do, however the gate is switched
-- and however often the clock wraps, the unit restarts itself at most once.
pub restarts_once :
    (s : BusSilence) (rec : BusRecord) (xs : List Sample) (frames : ℕ)
    → s.last_frames ≡ frames
    → All (Unaddressed frames) xs
    → asks (λ t. t.restart) s rec xs ≤ 1
unfolding asks
restarts_once s rec [] frames e all = omega arith
restarts_once s rec (x ∷ xs) frames e all =
    let same : x.frames ≡ s.last_frames = cc (all.0) in
    let p = tick s rec x in
    let e' = tick-last_frames s rec x same ∙ e in
    elim (Bool-cases p.todo.restart) [
      | inl asked ↦ rw asked (
          omega
            (arith, no_restart_after p.s p.rec xs frames e' all.1 (restart_marks s rec x asked)))
      | inr quiet ↦ rw quiet (restarts_once p.s p.rec xs frames e' all.1)
    ]
