-- ===== src/Unit/BusSilence/Wear.antt =====
-- How often a silence is written to EEPROM: the marks double, so the writes are few however long
-- the silence lasts.
use split_flap.Common.{
  ℕ, ◌+◌, ◌≤◌, ◌≡◌, refl, ◌∙◌, List, [], ◌∷◌, Bool, true, false, arith, sub32, if◌then◌else◌, All,
  ltb, ◌==◌,
}
use split_flap.Wire.BusRecord.{BusRecord}
use split_flap.Unit.BusSilence.{
  BusSilence, Sample, Pass, minutes_of, mark, notice, watch, reinit, save_mark, restart,
  silence_steps, quiet_pass, tick, nothing,
}
use split_flap.Unit.BusSilence.Restart.{asks, Unaddressed, tick-last_frames}

-- The writes that the doubling marks leave once `saved` minutes are written.
marks_left : ℕ → ℕ
marks_left saved =
    if saved == 0
    then 7
    else if ltb saved 2
    then 8
    else if ltb saved 4
    then 7
    else if ltb saved 8
    then 6
    else if ltb saved 16
    then 5
    else if ltb saved 32
    then 4
    else if ltb saved 64
    then 3
    else if ltb saved 128
    then 2
    else if ltb saved 255
    then 1
    else 0

-- A restart writes the record once more and, coming after 20 minutes, leaves at most four marks.
writes_left : Bool → ℕ → ℕ
writes_left restarted saved = marks_left saved + (if restarted then 0 else 5)

-- A pass at or after the notice of the silence.
save_mark_pays :
    (quiet : ℕ) (p : Pass)
    → p.todo.save ≡ false
    → let q = save_mark quiet p in
      (marks_left q.s.saved_minutes + (if q.todo.save then 1 else 0) ≤ marks_left p.s.saved_minutes)
      × (q.s.restarted ≡ p.s.restarted)
unfolding save_mark mark minutes_of marks_left
save_mark_pays quiet p h = ground arith

restart_pays :
    (x : Sample) (quiet : ℕ) (p : Pass)
    → let q = restart x quiet p in
      writes_left q.s.restarted q.s.saved_minutes + (if q.todo.save then 1 else 0)
      ≤ writes_left p.s.restarted p.s.saved_minutes + (if p.todo.save then 1 else 0)
unfolding restart minutes_of writes_left marks_left
restart_pays x quiet p = ground arith

-- The tests on the traffic and the hardware restart write nothing.
no_save_yet :
    (x : Sample) (p : Pass)
    → let q = reinit x (watch x p) in
      (q.todo.save ≡ p.todo.save)
      × (q.s.restarted ≡ p.s.restarted)
      × (q.s.silent ≡ p.s.silent)
      × (q.s.saved_minutes ≡ p.s.saved_minutes)
unfolding reinit watch
no_save_yet x p = ground arith

last_steps_silent :
    (x : Sample) (quiet : ℕ) (p : Pass)
    → (restart x quiet (save_mark quiet p)).s.silent ≡ p.s.silent
unfolding restart save_mark
last_steps_silent x quiet p = ground arith

last_steps_pay :
    (x : Sample) (quiet : ℕ) (p : Pass)
    → p.todo.save ≡ false
    → let q = restart x quiet (save_mark quiet p) in
      writes_left q.s.restarted q.s.saved_minutes + (if q.todo.save then 1 else 0)
      ≤ writes_left p.s.restarted p.s.saved_minutes
unfolding writes_left
last_steps_pay x quiet p h =
    ground (arith, save_mark_pays quiet p h, restart_pays x quiet (save_mark quiet p))

-- The writes that a silence still has, at any moment in it or before it.
pub write_budget : BusSilence → ℕ
unfolding writes_left marks_left
write_budget s = if s.silent then writes_left s.restarted s.saved_minutes else 12

budget_silent :
    (s : BusSilence) → s.silent ≡ true → write_budget s ≡ writes_left s.restarted s.saved_minutes
unfolding write_budget
budget_silent s h = rw h

silence_pays :
    (x : Sample) (quiet : ℕ) (p : Pass)
    → p.todo.save ≡ false
    → p.s.silent ≡ true
    → let q = silence_steps x quiet p in
      write_budget q.s + (if q.todo.save then 1 else 0) ≤ write_budget p.s
unfolding silence_steps
silence_pays x quiet p h silent =
    let w = reinit x (watch x p) in
    let q = restart x quiet (save_mark quiet w) in
    let kept = no_save_yet x p in
    ground (
      arith,
      last_steps_pay x quiet w (kept.0 ∙ h),
      budget_silent q.s (last_steps_silent x quiet w ∙ kept.2 ∙ silent),
      budget_silent p.s silent,
    )

awake_budget : (s : BusSilence) → s.silent ≡ false → write_budget s ≡ 12
unfolding write_budget
awake_budget s h = rw h

notice_budget :
    (s : BusSilence) (rec : BusRecord) (x : Sample) (quiet : ℕ)
    → write_budget (notice s rec x quiet).s ≡ 12
unfolding notice write_budget writes_left marks_left
notice_budget s rec x quiet = refl

quiet_pass_pays :
    (s : BusSilence) (rec : BusRecord) (x : Sample)
    → write_budget (quiet_pass s rec x).s + (if (quiet_pass s rec x).todo.save then 1 else 0)
      ≤ write_budget s
unfolding quiet_pass
quiet_pass_pays s rec x =
    let quiet = sub32 x.now_ms s.heard_ms in
    let start : Pass = record { s = s; rec = rec; todo = nothing } in
    ground (
      arith,
      silence_pays x quiet start refl,
      silence_pays x quiet (notice s rec x quiet) (unfold notice in refl) (unfold notice in refl),
      notice_budget s rec x quiet,
      awake_budget s,
    )

waiting_pays :
    (s : BusSilence) (now : ℕ) → write_budget (record s { heard_ms = now }) ≡ write_budget s
unfolding write_budget
waiting_pays s now = refl

tick_pays :
    (s : BusSilence) (rec : BusRecord) (x : Sample)
    → x.frames ≡ s.last_frames
    → write_budget (tick s rec x).s + (if (tick s rec x).todo.save then 1 else 0) ≤ write_budget s
unfolding tick
tick_pays s rec x same = ground (arith, quiet_pass_pays s rec x, waiting_pays s x.now_ms)

saves_within_budget :
    (s : BusSilence) (rec : BusRecord) (xs : List Sample) (frames : ℕ)
    → s.last_frames ≡ frames
    → All (Unaddressed frames) xs
    → asks (λ t. t.save) s rec xs ≤ write_budget s
unfolding asks
saves_within_budget s rec [] frames e all = omega arith
saves_within_budget s rec (x ∷ xs) frames e all =
    let same : x.frames ≡ s.last_frames = cc (all.0) in
    let p = tick s rec x in
    ground (
      arith,
      tick_pays s rec x same,
      saves_within_budget p.s p.rec xs frames (tick-last_frames s rec x same ∙ e) all.1,
    )

-- However long nobody addresses a unit, counting from any moment at which no silence was going on
-- yet, it asks for at most 12 writes of its record, the one before a restart included, whatever the
-- lines do, however the gate is switched and however often the clock wraps.
pub silence_saves_bounded :
    (s : BusSilence) (rec : BusRecord) (xs : List Sample) (frames : ℕ)
    → s.silent ≡ false
    → s.last_frames ≡ frames
    → All (Unaddressed frames) xs
    → asks (λ t. t.save) s rec xs ≤ 12
silence_saves_bounded s rec xs frames awake e all =
    omega (arith, awake_budget s awake, saves_within_budget s rec xs frames e all)
