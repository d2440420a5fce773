-- ===== src/Row/Reflash/Grade.antt =====
-- What the counters of a run say of the flashes that it made, and of its end.
use split_flap.Common.{
  ℕ, ◌+◌, ◌≤◌, ◌<◌, ◌≡◌, ◌⊎◌, inl, inr, refl, sym, ap, ◌∙◌, List, [], ◌∷◌, ◌++◌, Bool, true, false,
  arith, length, length-append, if_both, if_known, leb, ltb, if◌then◌else◌, bump8,
}
use mathlib.Core.List.{append_assoc, append-nil}
use split_flap.Row.Progress.{begin, unit_start, unit_result, settle}
use split_flap.Row.Calls.{
  Outcome, flashed, failed, stopped, not_entered, Hooks, Ctx, tell, ask_stop,
}
use split_flap.Row.Enter.{Entry, ready, missing, cancelled, entry, attempts}
use split_flap.Row.Quiet.{takes, taken_units, entry-Idle, attempts-takes}
use split_flap.Row.Reflash.{
  Run, publish, cut_short, note_outcome, settle_batch, settle_full, should_halt, halt_or_go,
  close_turn, conclude, after_entry, turn, run_loop, last_settle, start_run, run_targets,
}

-- After the turns of the units `done`.
pub record IsCounted {W : Type 0} (done : List ℕ) (r : Run W) : Type 0 where
  pub turns : r.progress.flashed + r.progress.lost ≡ length done
  pub streak : r.failures ≤ r.progress.lost
  pub boot : r.progress.boot_failed ≡ 0
  pub took : r.progress.flashed ≡ length (taken_units r.ctx.log)
  pub whole : r.progress.lost ≡ 0 → taken_units r.ctx.log ≡ done

-- A unit's outcome is known, and not yet noted.
pub record IsJudged {W : Type 0} (done : List ℕ) (addr : ℕ) (o : Outcome) (r : Run W) : Type 0 where
  pub units : List ℕ
  pub taken : taken_units r.ctx.log ≡ takes o addr units
  pub turns : r.progress.flashed + r.progress.lost ≡ length done
  pub streak : r.failures ≤ r.progress.lost
  pub boot : r.progress.boot_failed ≡ 0
  pub took : r.progress.flashed ≡ length units
  pub whole : r.progress.lost ≡ 0 → units ≡ done

-- The end of a run over `targets`.
pub record IsGraded {W : Type 0} (targets : List ℕ) (r : Run W) : Type 0 where
  pub within : r.progress.flashed + r.progress.lost ≤ length targets
  pub boot : r.progress.boot_failed ≡ 0
  pub took : r.progress.flashed ≡ length (taken_units r.ctx.log)
  pub whole :
      r.progress.lost ≡ 0 → r.progress.flashed ≡ length targets → taken_units r.ctx.log ≡ targets
  pub why :
      (r.ended.was_cancelled ≡ true)
      ⊎ (((r.ended.was_halted ≡ true) × (2 ≤ r.progress.lost))
          ⊎ ((r.ended.was_halted ≡ false)
              × (r.progress.flashed + r.progress.lost ≡ length targets)))

-- A turn that ends the run says why.
abbrev Says : {W : Type 0} → Bool × Run W → Type 0
Says (goes, r) =
    goes ≡ false
    → (r.ended.was_cancelled ≡ true) ⊎ ((r.ended.was_halted ≡ true) × (2 ≤ r.progress.lost))

-- One that goes on has not halted it.
abbrev GoesOn : {W : Type 0} → Bool × Run W → Type 0
GoesOn (goes, r) = goes ≡ true → r.ended.was_halted ≡ false

module _ {W : Type 0} (h : Hooks W) where
  abbrev Unhalted : Run W → Type 0
  Unhalted r = r.ended.was_halted ≡ false

  -- What a turn comes to.
  abbrev Turned : List ℕ → Bool × Run W → Type 0
  Turned done q = IsCounted done q.1 × Says q × GoesOn q

  settle_batch-IsCounted :
      (done : List ℕ) (r : Run W) → IsCounted done r → IsCounted done (settle_batch h r)
  unfolding settle_batch publish settle
  settle_batch-IsCounted done r p = record {
    turns = p.turns;
    streak = p.streak;
    boot = p.boot;
    took = p.took;
    whole = p.whole;
  }

  close_turn_lem :
      (done : List ℕ) (batch_size left : ℕ) (r : Run W)
      → IsCounted done r
      → Unhalted r
      → Turned done (close_turn h batch_size left r)
  unfolding close_turn halt_or_go should_halt settle_full settle_batch publish settle
  close_turn_lem done batch_size left r p u =
      let s = settle_full h batch_size r in
      let q =
        if_both (IsCounted done) (leb batch_size (length r.batch)) (settle_batch h r) r
          (settle_batch-IsCounted done r p) p in
      let v = if_both Unhalted (leb batch_size (length r.batch)) (settle_batch h r) r u u in
      if_known (Turned done) (leb 2 s.failures) _ _
        (λ e. (
          record {
            turns = q.turns;
            streak = q.streak;
            boot = q.boot;
            took = q.took;
            whole = q.whole;
          },
          λ x. inr (refl, ground (arith, e, q.streak)),
          λ x. absurd (ground (arith, x)),
        ))
        (λ e. (q, λ x. absurd (ground (arith, x)), λ x. v))

  -- A unit that is lost.
  lose :
      (done : List ℕ) (addr : ℕ) (r : Run W) (c : Ctx W) (failures : ℕ)
      → length done < 255
      → (units : List ℕ) → taken_units c.log ≡ units
      → r.progress.flashed + r.progress.lost ≡ length done
      → r.progress.boot_failed ≡ 0
      → r.progress.flashed ≡ length units
      → failures ≤ r.progress.lost + 1
      → IsCounted
          (done ++ addr ∷ [])
          (record r { ctx = c; progress = unit_result r.progress false; failures = failures })
  unfolding unit_result
  lose done addr r c failures lt units taken turns boot took few =
      let n = length-append done (addr ∷ []) in
      record {
        turns = omega (arith, n, turns, lt);
        streak = omega (arith, few, turns, lt);
        boot = boot;
        took = took ∙ ap length (sym taken);
        whole = λ z. absurd (omega (arith, z, turns, lt));
      }

  -- One that took the image.
  take_unit :
      (done : List ℕ) (addr : ℕ) (r : Run W)
      → length done < 255
      → IsJudged done addr flashed r
      → IsCounted (done ++ addr ∷ []) (publish h (note_outcome h addr flashed r))
  unfolding note_outcome publish tell unit_result
  take_unit done addr r lt p =
      let n = length-append done (addr ∷ []) in
      let m = ap length p.taken ∙ length-append p.units (addr ∷ []) in
      record {
        turns = omega (arith, n, p.turns, lt);
        streak = omega arith;
        boot = p.boot;
        took = omega (arith, m, p.took, p.turns, lt);
        whole = λ z. p.taken ∙ ap (λ us. us ++ addr ∷ []) (p.whole z);
      }

  conclude_lem :
      (done : List ℕ) (batch_size left addr : ℕ) (o : Outcome) (r : Run W)
      → length done < 255
      → IsJudged done addr o r
      → Unhalted r
      → Turned (done ++ addr ∷ []) (conclude h batch_size left addr o r)
  unfolding conclude note_outcome publish cut_short tell
  conclude_lem done batch_size left addr stopped r lt p u =
      let q =
        lose done addr r r.ctx r.failures lt p.units p.taken p.turns p.boot p.took
          (omega (arith, p.streak)) in
      (
        record {
          turns = q.turns;
          streak = q.streak;
          boot = q.boot;
          took = q.took;
          whole = q.whole;
        },
        λ x. inl refl,
        λ x. absurd (ground (arith, x)),
      )
  conclude_lem done batch_size left addr flashed r lt p u =
      close_turn_lem (done ++ addr ∷ []) batch_size left (publish h (note_outcome h addr flashed r))
        (take_unit done addr r lt p) u
  conclude_lem done batch_size left addr failed r lt p u =
      let q =
        lose done addr r r.ctx (bump8 r.failures) lt p.units p.taken p.turns p.boot p.took
          (ground (arith, p.streak)) in
      close_turn_lem (done ++ addr ∷ []) batch_size left (publish h (note_outcome h addr failed r))
        (record {
          turns = q.turns;
          streak = q.streak;
          boot = q.boot;
          took = q.took;
          whole = q.whole;
        })
        u
  conclude_lem done batch_size left addr not_entered r lt p u =
      let q =
        lose done addr r r.ctx r.failures lt p.units p.taken p.turns p.boot p.took
          (omega (arith, p.streak)) in
      close_turn_lem (done ++ addr ∷ []) batch_size left
        (publish h (note_outcome h addr not_entered r))
        (record {
          turns = q.turns;
          streak = q.streak;
          boot = q.boot;
          took = q.took;
          whole = q.whole;
        })
        u

  attempts-IsJudged :
      (done : List ℕ) (addr : ℕ) (e : Entry) (r : Run W)
      → IsCounted done r
      → let (o, c) = attempts h e addr r.ctx in IsJudged done addr o (record r { ctx = c })
  attempts-IsJudged done addr e r p = record {
    units = taken_units r.ctx.log;
    taken = attempts-takes h e addr r.ctx;
    turns = p.turns;
    streak = p.streak;
    boot = p.boot;
    took = p.took;
    whole = p.whole;
  }

  after_entry_lem :
      (done : List ℕ) (batch_size left addr : ℕ) (e : Entry) (r : Run W)
      → length done < 255
      → IsCounted done r
      → Unhalted r
      → Turned (done ++ addr ∷ []) (after_entry h batch_size left addr e r)
  unfolding after_entry
  after_entry_lem done batch_size left addr cancelled r lt p u =
      conclude_lem done batch_size left addr stopped r lt
        (record {
          units = taken_units r.ctx.log;
          taken = refl;
          turns = p.turns;
          streak = p.streak;
          boot = p.boot;
          took = p.took;
          whole = p.whole;
        })
        u
  after_entry_lem done batch_size left addr ready r lt p u =
      let (o, c) = attempts h ready addr r.ctx in
      conclude_lem done batch_size left addr o (record r { ctx = c }) lt
        (attempts-IsJudged done addr ready r p) u
  after_entry_lem done batch_size left addr missing r lt p u =
      let (o, c) = attempts h missing addr r.ctx in
      conclude_lem done batch_size left addr o (record r { ctx = c }) lt
        (attempts-IsJudged done addr missing r p) u

  turn_lem :
      (done : List ℕ) (batch_size wait_ms left addr : ℕ) (r : Run W)
      → length done < 255
      → IsCounted done r
      → Unhalted r
      → Turned (done ++ addr ∷ []) (turn h batch_size wait_ms left addr r)
  unfolding turn publish unit_start tell
  turn_lem done batch_size wait_ms left addr r lt p u =
      let r1 = publish h (record r { progress = unit_start r.progress addr }) in
      let (e, c) = entry h wait_ms addr r1.ctx in
      let same = (entry-Idle h wait_ms addr r1.ctx).1 in
      after_entry_lem done batch_size left addr e (record r1 { ctx = c }) lt
        (record {
          turns = p.turns;
          streak = p.streak;
          boot = p.boot;
          took = p.took ∙ ap length (sym same);
          whole = λ z. same ∙ p.whole z;
        })
        u

  -- A run that ends behind the turns of `done`, of which `rest` are left.
  end_run :
      (targets done rest : List ℕ) (r : Run W)
      → done ++ rest ≡ targets
      → IsCounted done r
      → (r.ended.was_cancelled ≡ true)
        ⊎ (((r.ended.was_halted ≡ true) × (2 ≤ r.progress.lost))
            ⊎ ((r.ended.was_halted ≡ false)
                × (r.progress.flashed + r.progress.lost ≡ length targets)))
      → IsGraded targets r
  end_run targets done [] r e p why =
      let e' : done ≡ targets = sym (append-nil done) ∙ e in
      record {
        within = omega (arith, p.turns, ap length e');
        boot = p.boot;
        took = p.took;
        whole = λ z f. p.whole z ∙ e';
        why = why;
      }
  end_run targets done (x ∷ rest) r e p why =
      let n = ap length (sym e) ∙ length-append done (x ∷ rest) in
      record {
        within = omega (arith, p.turns, n);
        boot = p.boot;
        took = p.took;
        whole = λ z f. absurd (omega (arith, z, f, p.turns, n));
        why = why;
      }

  run_loop-IsGraded :
      (all done : List ℕ) (batch_size wait_ms : ℕ) (targets : List ℕ) (r : Run W)
      → done ++ targets ≡ all
      → length all ≤ 255
      → IsCounted done r
      → Unhalted r
      → IsGraded all (run_loop h batch_size wait_ms targets r)
  unfolding run_loop
  run_loop-IsGraded all done batch_size wait_ms [] r e fits p u =
      let n = ap length (sym (append-nil done) ∙ e) in
      end_run all done [] r e p (inr (inr (u, p.turns ∙ n)))
  run_loop-IsGraded all done batch_size wait_ms (addr ∷ targets) r e fits p u =
      let (stopping, c) = ask_stop h r.ctx in
      let asked_run = record r { ctx = c } in
      let p0 : IsCounted done asked_run = record {
        turns = p.turns;
        streak = p.streak;
        boot = p.boot;
        took = p.took;
        whole = p.whole;
      } in
      let n = ap length (sym e) ∙ length-append done (addr ∷ targets) in
      let q = turn h batch_size wait_ms (length targets) addr asked_run in
      let e1 : (done ++ addr ∷ []) ++ targets ≡ all = append_assoc done (addr ∷ []) targets ∙ e in
      let (p1, says, goes) =
        turn_lem done batch_size wait_ms (length targets) addr asked_run (omega (arith, n, fits)) p0
          u in
      let stopped_run : Run W = record asked_run {
        ended = record r.ended { was_cancelled = true };
      } in
      let P = IsGraded all in
      let rest = run_loop h batch_size wait_ms targets q.1 in
      if_both P stopping stopped_run (if q.0 then rest else q.1)
        (end_run all done (addr ∷ targets) stopped_run e
          (record {
            turns = p.turns;
            streak = p.streak;
            boot = p.boot;
            took = p.took;
            whole = p.whole;
          })
          (inl refl))
        (if_known P q.0 rest q.1
          (λ t.
            run_loop-IsGraded all (done ++ addr ∷ []) batch_size wait_ms targets q.1 e1 fits p1
              (goes t))
          (λ t.
            end_run all (done ++ addr ∷ []) targets q.1 e1 p1
              (elim (says t) [ inl x ↦ inl x | inr x ↦ inr (inl x) ])))

  last_settle-IsGraded :
      (targets : List ℕ) (r : Run W) → IsGraded targets r → IsGraded targets (last_settle h r)
  unfolding last_settle settle_batch publish settle
  last_settle-IsGraded targets r p =
      if_both (IsGraded targets) (ltb 0 (length r.batch)) (settle_batch h r) r
        (record { within = p.within; boot = p.boot; took = p.took; whole = p.whole; why = p.why }) p

  pub run_targets-IsGraded :
      (batch_size wait_ms : ℕ) (targets : List ℕ) (world : W)
      → length targets ≤ 255
      → IsGraded targets (run_targets h batch_size wait_ms targets (begin (length targets)) world)
  unfolding run_targets start_run begin
  run_targets-IsGraded batch_size wait_ms targets world fits =
      let start = start_run h (begin (length targets)) world in
      last_settle-IsGraded targets (run_loop h batch_size wait_ms targets start) (
        run_loop-IsGraded targets [] batch_size wait_ms targets start refl fits
          (record {
            turns = refl;
            streak = omega arith;
            boot = refl;
            took = refl;
            whole = λ z. refl;
          })
          refl)
