-- ===== src/Unit/BusSilence/Record.antt =====
-- What a unit writes down stays well-formed: every field fits its byte, and the longest silence is
-- at least the latest.
use split_flap.Common.{
  ℕ, ◌≤◌, ◌≡◌, refl, true, false, bit_or, arith, IsByte, ltb, sub32, ◌≢◌, ◌↔◌, if_both,
  if◌then◌else◌, not, ◌&&◌, ◌!=◌,
}
use split_flap.Common.Table.{table_256, at_byte}
use split_flap.Wire.BusRecord.{BusRecord, flag_traffic, flag_ended, flag_restarted}
use split_flap.Unit.BusSilence.{
  BusSilence, Sample, Pass, minutes_of, heard, notice, watch, reinit, save_mark, restart,
  silence_steps, quiet_pass, tick, nothing, after_ms, contact_frames_needed,
}

pub record IsRecord (r : BusRecord) : Type 0 where
  pub silences_byte : IsByte r.silences
  pub longest_byte : IsByte r.longest_minutes
  pub last_le_longest : r.last_minutes ≤ r.longest_minutes
  pub reinits_byte : IsByte r.reinits
  pub heard_byte : IsByte r.reinits_heard
  pub restarts_byte : IsByte r.self_restarts
  pub flags_byte : IsByte r.flags

traffic_table : table_256 (λ f. ltb (bit_or f flag_traffic) 256) ≡ true
unfolding table_256
traffic_table = refl

ended_table : table_256 (λ f. ltb (bit_or f flag_ended) 256) ≡ true
unfolding table_256
ended_table = refl

restarted_table : table_256 (λ f. ltb (bit_or f flag_restarted) 256) ≡ true
unfolding table_256
restarted_table = refl

minutes_of-IsByte : (ms : ℕ) → IsByte (minutes_of ms)
unfolding minutes_of
minutes_of-IsByte ms = ground arith

heard-IsRecord :
    (s : BusSilence) (rec : BusRecord) (x : Sample) → IsRecord rec → IsRecord (heard s rec x).rec
unfolding heard minutes_of
heard-IsRecord s rec x h = ground (arith, at_byte _ ended_table rec.flags)

notice-IsRecord :
    (s : BusSilence) (rec : BusRecord) (x : Sample) (quiet : ℕ)
    → IsRecord rec
    → IsRecord (notice s rec x quiet).rec
unfolding notice minutes_of
notice-IsRecord s rec x quiet h = ground arith

watch-IsRecord : (x : Sample) (p : Pass) → IsRecord p.rec → IsRecord (watch x p).rec
unfolding watch
watch-IsRecord x p h = ground (arith, at_byte _ traffic_table p.rec.flags)

reinit-IsRecord : (x : Sample) (p : Pass) → IsRecord p.rec → IsRecord (reinit x p).rec
unfolding reinit
reinit-IsRecord x p h = ground arith

save_mark-IsRecord : (quiet : ℕ) (p : Pass) → IsRecord p.rec → IsRecord (save_mark quiet p).rec
unfolding save_mark
save_mark-IsRecord quiet p h = ground (arith, minutes_of-IsByte quiet)

restart-IsRecord :
    (x : Sample) (quiet : ℕ) (p : Pass) → IsRecord p.rec → IsRecord (restart x quiet p).rec
unfolding restart
restart-IsRecord x quiet p h =
    ground (arith, at_byte _ restarted_table p.rec.flags, minutes_of-IsByte quiet)

silence_steps-IsRecord :
    (x : Sample) (quiet : ℕ) (p : Pass) → IsRecord p.rec → IsRecord (silence_steps x quiet p).rec
unfolding silence_steps
silence_steps-IsRecord x quiet p h =
    restart-IsRecord x quiet _
      (save_mark-IsRecord quiet _ (reinit-IsRecord x _ (watch-IsRecord x p h)))

-- Every tick keeps the counters of the record within their bytes and the longest silence at least
-- the latest.
pub tick-IsRecord :
    (s : BusSilence) (rec : BusRecord) (x : Sample) → IsRecord rec → IsRecord (tick s rec x).rec
unfolding tick quiet_pass
tick-IsRecord s rec x h =
    let quiet = sub32 x.now_ms s.heard_ms in
    let start : Pass = record { s = s; rec = rec; todo = nothing } in
    let P = λ (p : Pass). IsRecord p.rec in
    let waiting : Pass = record {
      s = record s { heard_ms = x.now_ms };
      rec = rec;
      todo = nothing;
    } in
    let inside = if s.silent then start else notice s rec x quiet in
    let steps = silence_steps x quiet inside in
    let held =
      if_both P s.silent start (notice s rec x quiet) h (notice-IsRecord s rec x quiet h) in
    let soon = not s.silent && ltb quiet after_ms in
    let unheard = if_both P soon start steps h (silence_steps-IsRecord x quiet inside held) in
    let without = ltb s.contact_frames contact_frames_needed in
    let passed = if soon then start else steps in
    if_both P (x.frames != s.last_frames) (heard s rec x) (if without then waiting else passed)
      (heard-IsRecord s rec x h) (if_both P without waiting passed h unheard)

-- A unit that is addressed ends its silence: the record then says that it ended, and carries a
-- length of at least a minute; without a silence the record does not change. Either way nothing is
-- left of the silence's own restart, and the record is written if the silence was written before.
pub addressed_ends_silence :
    (s : BusSilence) (rec : BusRecord) (x : Sample)
    → x.frames ≢ s.last_frames
    → let p = tick s rec x in
      (p.s.silent ≡ false)
      × (p.s.restarted ≡ false)
      × (p.s.heard_ms ≡ x.now_ms)
      × (p.todo.restart ≡ false)
      × (p.todo.reinit ≡ false)
      × ((p.todo.save ≡ true) ↔ ((s.silent ≡ true) × (s.saved_minutes ≢ 0)))
      × (s.silent ≡ false → p.rec ≡ rec)
      × (s.silent ≡ true
          → (1 ≤ p.rec.last_minutes)
            × (p.rec.flags ≡ bit_or rec.flags flag_ended)
            × (p.rec.silences ≡ rec.silences))
unfolding tick heard
addressed_ends_silence s rec x h = ground arith
