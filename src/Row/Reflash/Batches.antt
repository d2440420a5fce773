-- ===== src/Row/Reflash/Batches.antt =====
-- Which units are settled, and when: every unit that was flashed is in exactly one settle of at
-- most a batch, in the order of the flashing, on every exit of the run.
use split_flap.Common.{
  ℕ, ◌≤◌, ◌<◌, ◌≡◌, refl, sym, ap, ◌∙◌, List, [], ◌∷◌, ◌++◌, true, ltb, leb, if◌then◌else◌, arith,
  length, length-append, Bool-cases, inl, inr, if_both,
}
use mathlib.Core.List.{append_assoc, append-nil}
use split_flap.Row.Progress.{Progress, unit_start}
use split_flap.Row.Calls.{
  Outcome, flashed, failed, stopped, not_entered, Hooks, Ctx, tell, ask_stop,
}
use split_flap.Row.Enter.{Entry, ready, missing, cancelled, entry, attempts}
use split_flap.Row.Reflash.{
  Run, publish, cut_short, note_outcome, settle_batch, settle_full, halt_or_go, should_halt,
  close_turn, conclude, after_entry, turn, run_loop, last_settle, start_run, run_targets,
}
use split_flap.Row.Quiet.{
  restored_units, takes, taken_units, settled_units, largest_settle, Idle, entry-Idle,
  attempts-Quiet, attempts-takes,
}

-- Between two turns: the batch holds what was flashed and not settled, and has room.
pub record IsPaced {W : Type 0} (batch_size : ℕ) (r : Run W) : Type 0 where
  pub room : length r.batch < batch_size
  pub waiting_units : taken_units r.ctx.log ≡ settled_units r.ctx.log ++ r.batch
  pub told : restored_units r.ctx.log ≡ taken_units r.ctx.log
  pub paced : largest_settle r.ctx.log ≤ batch_size

module _ {W : Type 0} (h : Hooks W) where
  -- Calls that flash nothing keep a run paced.
  IsPaced-Idle :
      (batch_size : ℕ) (r : Run W) (c : Ctx W)
      → Idle r.ctx.log c.log
      → IsPaced batch_size r
      → IsPaced batch_size (record r { ctx = c })
  IsPaced-Idle batch_size r c (q, t) p = record {
    room = p.room;
    waiting_units = t ∙ p.waiting_units ∙ ap (λ t. t ++ r.batch) (sym q.1);
    told = q.0 ∙ p.told ∙ sym t;
    paced = omega (arith, q.2, p.paced);
  }

  -- A unit's outcome is known, and not yet noted.
  record IsJudged (batch_size addr : ℕ) (o : Outcome) (r : Run W) : Type 0 where
    room : length r.batch < batch_size
    units : taken_units r.ctx.log ≡ takes o addr (settled_units r.ctx.log ++ r.batch)
    told : takes o addr (restored_units r.ctx.log) ≡ taken_units r.ctx.log
    pace : largest_settle r.ctx.log ≤ batch_size

  attempts-IsJudged :
      (batch_size addr : ℕ) (e : Entry) (r : Run W)
      → IsPaced batch_size r
      → let (o, c) = attempts h e addr r.ctx in IsJudged batch_size addr o (record r { ctx = c })
  attempts-IsJudged batch_size addr e r p =
      let (o, c) = attempts h e addr r.ctx in
      let q = attempts-Quiet h e addr r.ctx in
      let t = attempts-takes h e addr r.ctx in
      record {
        room = p.room;
        units = t ∙ ap (takes o addr) (p.waiting_units ∙ ap (λ t. t ++ r.batch) (sym q.1));
        told = ap (takes o addr) (q.0 ∙ p.told) ∙ sym t;
        pace = omega (arith, q.2, p.paced);
      }

  -- Inside a turn the batch may be full.
  record IsHeld (batch_size : ℕ) (r : Run W) : Type 0 where
    held : length r.batch ≤ batch_size
    units : taken_units r.ctx.log ≡ settled_units r.ctx.log ++ r.batch
    told : restored_units r.ctx.log ≡ taken_units r.ctx.log
    pace : largest_settle r.ctx.log ≤ batch_size

  settle_batch-IsPaced :
      (batch_size : ℕ) (r : Run W)
      → 0 < batch_size
      → IsHeld batch_size r
      → IsPaced batch_size (settle_batch h r)
  unfolding settle_batch publish
  settle_batch-IsPaced batch_size r pos p = record {
    room = pos;
    waiting_units = p.units ∙ sym (append-nil (settled_units r.ctx.log ++ r.batch));
    told = p.told;
    paced = ground (arith, p.held, p.pace);
  }

  settle_full-IsPaced :
      (batch_size : ℕ) (r : Run W)
      → 0 < batch_size
      → IsHeld batch_size r
      → IsPaced batch_size (settle_full h batch_size r)
  unfolding settle_full
  settle_full-IsPaced batch_size r pos p = elim (Bool-cases (leb batch_size (length r.batch))) [
    | inl full ↦ rw full (settle_batch-IsPaced batch_size r pos p)
    | inr short ↦
        rw short
          (record { room = ground arith; waiting_units = p.units; told = p.told; paced = p.pace })
  ]

  -- A halt settles nothing and restores nothing.
  halt_or_go-IsPaced :
      (batch_size left : ℕ) (r : Run W)
      → IsPaced batch_size r
      → IsPaced batch_size (halt_or_go h left r).1
  unfolding halt_or_go tell
  halt_or_go-IsPaced batch_size left r p = elim (Bool-cases (should_halt r.failures)) [
    | inl halts ↦
        rw halts (record {
          room = p.room;
          waiting_units = p.waiting_units;
          told = p.told;
          paced = p.paced;
        })
    | inr goes ↦ rw goes p
  ]

  -- The calls of a turn's end that are not settles.
  conclude-IsPaced :
      (batch_size left addr : ℕ) (o : Outcome) (r : Run W)
      → 0 < batch_size
      → IsJudged batch_size addr o r
      → IsPaced batch_size (conclude h batch_size left addr o r).1
  unfolding conclude cut_short note_outcome publish close_turn
  conclude-IsPaced batch_size left addr stopped r pos p = record {
    room = p.room;
    waiting_units = p.units;
    told = p.told;
    paced = p.pace;
  }
  conclude-IsPaced batch_size left addr flashed r pos p = halt_or_go-IsPaced batch_size left _ (
      settle_full-IsPaced batch_size _ pos (record {
        held = omega (arith, p.room, length-append r.batch (addr ∷ []));
        units = p.units ∙ append_assoc (settled_units r.ctx.log) r.batch (addr ∷ []);
        told = p.told;
        pace = p.pace;
      }))
  conclude-IsPaced batch_size left addr failed r pos p = halt_or_go-IsPaced batch_size left _ (
      settle_full-IsPaced batch_size _ pos
        (record { held = omega (arith, p.room); units = p.units; told = p.told; pace = p.pace }))
  conclude-IsPaced batch_size left addr not_entered r pos p = halt_or_go-IsPaced batch_size left _ (
      settle_full-IsPaced batch_size _ pos
        (record { held = omega (arith, p.room); units = p.units; told = p.told; pace = p.pace }))

  after_entry-IsPaced :
      (batch_size left addr : ℕ) (e : Entry) (r : Run W)
      → 0 < batch_size
      → IsPaced batch_size r
      → IsPaced batch_size (after_entry h batch_size left addr e r).1
  unfolding after_entry cut_short publish
  after_entry-IsPaced batch_size left addr cancelled r pos p = record {
    room = p.room;
    waiting_units = p.waiting_units;
    told = p.told;
    paced = p.paced;
  }
  after_entry-IsPaced batch_size left addr ready r pos p =
      let (o, c) = attempts h ready addr r.ctx in
      conclude-IsPaced batch_size left addr o (record r { ctx = c }) pos
        (attempts-IsJudged batch_size addr ready r p)
  after_entry-IsPaced batch_size left addr missing r pos p =
      let (o, c) = attempts h missing addr r.ctx in
      conclude-IsPaced batch_size left addr o (record r { ctx = c }) pos
        (attempts-IsJudged batch_size addr missing r p)

  turn-IsPaced :
      (batch_size wait_ms left addr : ℕ) (r : Run W)
      → 0 < batch_size
      → IsPaced batch_size r
      → IsPaced batch_size (turn h batch_size wait_ms left addr r).1
  unfolding turn publish tell
  turn-IsPaced batch_size wait_ms left addr r pos p =
      let r1 = publish h (record r { progress = unit_start r.progress addr }) in
      let (e, c) = entry h wait_ms addr r1.ctx in
      let p1 : IsPaced batch_size r1 = record {
        room = p.room;
        waiting_units = p.waiting_units;
        told = p.told;
        paced = p.paced;
      } in
      after_entry-IsPaced batch_size left addr e (record r1 { ctx = c }) pos
        (IsPaced-Idle batch_size r1 c (entry-Idle h wait_ms addr r1.ctx) p1)

  run_loop-IsPaced :
      (batch_size wait_ms : ℕ) (targets : List ℕ) (r : Run W)
      → 0 < batch_size
      → IsPaced batch_size r
      → IsPaced batch_size (run_loop h batch_size wait_ms targets r)
  unfolding run_loop
  run_loop-IsPaced batch_size wait_ms [] r pos p = p
  run_loop-IsPaced batch_size wait_ms (addr ∷ targets) r pos p =
      let c = (ask_stop h r.ctx).1 in
      let asked_run = record r { ctx = c } in
      let p0 : IsPaced batch_size asked_run = record {
        room = p.room;
        waiting_units = p.waiting_units;
        told = p.told;
        paced = p.paced;
      } in
      let turned = turn h batch_size wait_ms (length targets) addr asked_run in
      let p1 = turn-IsPaced batch_size wait_ms (length targets) addr asked_run pos p0 in
      let rest = run_loop-IsPaced batch_size wait_ms targets turned.1 pos p1 in
      let stopped_run : Run W = record asked_run {
        ended = record r.ended { was_cancelled = true };
      } in
      let p2 : IsPaced batch_size stopped_run = record {
        room = p.room;
        waiting_units = p.waiting_units;
        told = p.told;
        paced = p.paced;
      } in
      let P = λ (q : Run W). IsPaced batch_size q in
      let later = run_loop h batch_size wait_ms targets turned.1 in
      if_both P (h.stop_requested r.ctx.world).0 stopped_run (if turned.0 then later else turned.1)
        p2 (if_both P turned.0 later turned.1 rest p1)

  -- The settle behind the loop empties the batch.
  last_settle_lem :
      (batch_size : ℕ) (r : Run W)
      → 0 < batch_size
      → IsPaced batch_size r
      → IsPaced batch_size (last_settle h r) × ((last_settle h r).batch ≡ [])
  unfolding last_settle
  last_settle_lem batch_size r pos p = elim (Bool-cases (ltb 0 (length r.batch))) [
    | inl some_left ↦ rw some_left (
      settle_batch-IsPaced batch_size r pos (record {
        held = omega (arith, p.room);
        units = p.waiting_units;
        told = p.told;
        pace = p.paced;
      }),
      unfold settle_batch in refl,
    )
    | inr none_left ↦ rw none_left (p, ground arith)
  ]

  -- However a run ends (through its plan, halted or stopped), for a batch of one unit at least: the
  -- units of the flashes that were answered `Flashed`, in their order, are those settled, each once,
  -- and those reported to the bus file as flashed; and no settle was of more units than a batch.
  pub run_targets_settles :
      (batch_size wait_ms : ℕ) (targets : List ℕ) (progress : Progress) (world : W)
      → 0 < batch_size
      → let log = (run_targets h batch_size wait_ms targets progress world).ctx.log in
        (settled_units log ≡ taken_units log)
        × (restored_units log ≡ taken_units log)
        × (largest_settle log ≤ batch_size)
  unfolding run_targets
  run_targets_settles batch_size wait_ms targets progress world pos =
      let start = start_run h progress world in
      let p0 : IsPaced batch_size start =
        unfold start_run in
        record { room = pos; waiting_units = refl; told = refl; paced = omega arith } in
      let r = run_loop h batch_size wait_ms targets start in
      let (p, empty) =
        last_settle_lem batch_size r pos
          (run_loop-IsPaced batch_size wait_ms targets start pos p0) in
      let e = append-nil (settled_units (last_settle h r).ctx.log) in
      (
        sym (p.waiting_units ∙ ap (λ t. settled_units (last_settle h r).ctx.log ++ t) empty ∙ e),
        p.told,
        p.paced,
      )
