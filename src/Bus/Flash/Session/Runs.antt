-- ===== src/Bus/Flash/Session/Runs.antt =====
-- firmware/v2/shared/UnitBusTwiboot.h: every run of a flash is a session.
use split_flap.Common.{
  ℕ, zero, suc, ◌+◌, ◌/◌, ◌<◌, ◌≡◌, refl, ap, List, [], Bool, true, false, not, ◌==◌, ltb,
  if◌then◌else◌, if_both, if_known, arith,
}
use split_flap.Bus.Adapter.{Bus, transmit, transmit_counted}
use split_flap.Bus.Twiboot.{
  is_ok, page_bytes, image_fits, exit, await_bootloader, verify_chip, flash_and_verify_page,
  await_sketch_in, await_sketch,
}
use split_flap.Bus.Sketch.{reboot_sketch, send_guarded}
use split_flap.Bus.Flash.{
  UnitFlashResult, finished, image_too_large, bootloader_silent, chip_mismatch, page_failed,
  exit_failed, post_boot_silent, aborted, is_finished, UnitFlashReport, blank_report, Watch,
  step_page, step_addr, step_count, flash_step, flash_steps, leave, flash_image,
}
use split_flap.Bus.Flash.Trace.{Traced, traced, traced_watch, fresh}
use split_flap.Bus.Flash.Session.{
  at, left, Session, opened, exited, woken, restarted, Open, await_bootloader-Session,
  verify_chip-Session,
}
use split_flap.Bus.Flash.Session.Page.{Judged-split, flash_and_verify_page-Judged}

-- The results of a flash that told the bootloader to start the sketch.
abbrev pub was_started : UnitFlashResult → Bool
was_started finished = true
was_started exit_failed = true
was_started post_boot_silent = true
was_started _ = false

module _ {W : Type 0} (bus : Bus W) (watch : Watch W) (addr : ℕ) (pages : ℕ → List ℕ)
    (page_count : ℕ) where
  -- What the steps up to `n` leave, where they went through and where they did not.
  Stepped : ℕ → UnitFlashReport × Traced W → Type 0
  Stepped n (r, t) =
      if is_finished r.result
      then Session addr pages page_count (at n false) t.log
      else (was_started r.result ≡ false) × (m : ℕ) × Open bus addr pages page_count m t.log

  unstarted : (r : UnitFlashResult) → was_started r ≡ false → is_finished r ≡ false
  unstarted r h = ground arith

  torn-Stepped :
      (n m : ℕ) (r : UnitFlashReport) (t : Traced W)
      → was_started r.result ≡ false
      → Open bus addr pages page_count m t.log
      → Stepped n (r, t)
  unfolding Stepped
  torn-Stepped n m r t e o = rw (unstarted r.result e) (e, m, o)

  whole-Stepped :
      (n : ℕ) (r : UnitFlashReport) (t : Traced W)
      → r.result ≡ finished
      → Session addr pages page_count (at n false) t.log
      → Stepped n (r, t)
  unfolding Stepped
  whole-Stepped n r t e s = rw e s

  Stepped-split :
      (n : ℕ) (r : UnitFlashReport × Traced W)
      → Stepped n r
      → (is_finished r.0.result ≡ true → Session addr pages page_count (at n false) r.1.log)
        × (is_finished r.0.result ≡ false
            → (was_started r.0.result ≡ false) × (m : ℕ) × Open bus addr pages page_count m r.1.log)
  unfolding Stepped
  Stepped-split n (r, t) s = (λ e. rw e at s, λ e. rw e at s)

  Bool-not : (b : Bool) → (not b ≡ true → b ≡ false) × (not b ≡ false → b ≡ true)
  Bool-not b = ground arith

  is_finished-≡ : (r : UnitFlashResult) → is_finished r ≡ true → r ≡ finished
  is_finished-≡ r h = ground arith

  flash_step-Stepped :
      (n : ℕ) (report : UnitFlashReport) (t : Traced W)
      → n < step_count page_count
      → report.result ≡ finished
      → Session addr pages page_count (at n false) t.log
      → Stepped
          (suc n)
          (flash_step (traced bus) (traced_watch watch) addr pages page_count n report t)
  unfolding flash_step
  flash_step-Stepped n report t h f s =
      let r1 = (traced_watch watch).keep_going t in
      let at_ = step_addr page_count n in
      let r2 = flash_and_verify_page (traced bus) addr at_ (step_page pages page_count n) r1.1 in
      let t3 = if ltb 0 r2.1 then (traced_watch watch).page_rewritten at_ r2.1 r2.2 else r2.2 in
      let failed = record report { step = r2.0; result = page_failed; page_addr = at_ } in
      let kept : t3.log ≡ r2.2.log =
        if_both (λ (u : Traced W). u.log ≡ r2.2.log) (ltb 0 r2.1) _ r2.2 refl refl in
      let (done, torn) =
        Judged-split bus addr pages page_count n r2
          (flash_and_verify_page-Judged bus addr pages page_count n r1.1 h (false, s)) in
      if_both (Stepped (suc n)) (not r1.0) (record report { result = aborted }, r1.1) _
        (torn-Stepped (suc n) n _ r1.1 refl (false, s))
        (if_known (Stepped (suc n)) (not (is_ok r2.0)) (failed, t3)
          (record report { step = r2.0 }, t3)
          (λ e.
            torn-Stepped (suc n) n failed t3 refl (rw kept (torn ((Bool-not (is_ok r2.0)).0 e))))
          (λ e.
            whole-Stepped (suc n) (record report { step = r2.0 }) t3 f
              (rw kept (done ((Bool-not (is_ok r2.0)).1 e)))))

  flash_steps-Stepped :
      (k n : ℕ) (report : UnitFlashReport) (t : Traced W)
      → n + k ≡ step_count page_count
      → report.result ≡ finished
      → Session addr pages page_count (at n false) t.log
      → Stepped
          (step_count page_count)
          (flash_steps (traced bus) (traced_watch watch) addr pages k page_count n report t)
  unfolding flash_steps
  flash_steps-Stepped zero n report t h f s =
      let e : n ≡ step_count page_count = omega arith in
      whole-Stepped (step_count page_count) report t f (rw e at s)
  flash_steps-Stepped (suc k) n report t h f s =
      let r = flash_step (traced bus) (traced_watch watch) addr pages page_count n report t in
      let (whole, torn) =
        Stepped-split (suc n) r (flash_step-Stepped n report t (omega arith) f s) in
      let next : suc n ≡ n + 1 = omega arith in
      if_known (Stepped (step_count page_count)) (is_finished r.0.result) _ r
        (λ e.
          flash_steps-Stepped k (n + 1) r.0 r.1 (omega arith) (is_finished-≡ r.0.result e)
            (rw next at (whole e)))
        (λ e. let (u, m, o) = torn e in torn-Stepped (step_count page_count) m r.0 r.1 u o)

  Left : {A : Type 0} → A × Traced W → Type 0
  Left (_, t) = Session addr pages page_count left t.log

  await_sketch_in-Left :
      (k : ℕ) (t : Traced W)
      → Session addr pages page_count left t.log
      → Session addr pages page_count left (await_sketch_in (traced bus) addr k t).1.log
  unfolding await_sketch_in transmit
  await_sketch_in-Left zero t s = s
  await_sketch_in-Left (suc k) t s =
      let r = transmit (traced bus) addr [] true ((traced bus).sleep_ms 500 t) in
      let s1 : Session addr pages page_count left r.1.log = woken r.0 s in
      if_both (λ (u : Bool × Traced W). Session addr pages page_count left u.1.log) (r.0 == 0)
        (true, r.1) (await_sketch_in (traced bus) addr k r.1) s1 (await_sketch_in-Left k r.1 s1)

  -- How a flash ends: with the sketch started, or with a session that the bootloader is still in.
  unfoldable pub Ended : UnitFlashReport × Traced W → Type 0
  Ended (r, t) =
      if was_started r.result
      then Session addr pages page_count left t.log
      else (m : ℕ) × Open bus addr pages page_count m t.log

  started-Ended :
      (r : UnitFlashReport) (t : Traced W)
      → was_started r.result ≡ true
      → Session addr pages page_count left t.log
      → Ended (r, t)
  unfolding Ended
  started-Ended r t e s = rw e s

  unstarted-Ended :
      (r : UnitFlashReport) (t : Traced W) (m : ℕ)
      → was_started r.result ≡ false
      → Open bus addr pages page_count m t.log
      → Ended (r, t)
  unfolding Ended
  unstarted-Ended r t m e o = rw e (m, o)

  leave-Ended :
      (report : UnitFlashReport) (t : Traced W)
      → report.result ≡ finished
      → Session addr pages page_count (at (step_count page_count) false) t.log
      → Ended (leave (traced bus) (traced_watch watch) addr pages report t)
  unfolding leave exit await_sketch reboot_sketch send_guarded transmit transmit_counted
  leave-Ended report t f s =
      let r1 = exit (traced bus) addr t in
      let r2 = await_sketch (traced bus) addr r1.1 in
      let r3 = reboot_sketch (traced bus) addr r2.1 in
      let s1 : Session addr pages page_count left r1.1.log = exited r1.0 s in
      let s2 : Session addr pages page_count left r2.1.log = await_sketch_in-Left 5 r1.1 s1 in
      if_both Ended (not (r1.0 == 0)) (record report { result = exit_failed }, r1.1) _
        (started-Ended _ r1.1 refl s1)
        (if_both Ended (not r2.0) (record report { result = post_boot_silent }, r2.1)
          (record report { reboot_status = r3.0 }, r3.1) (started-Ended _ r2.1 refl s2)
          (started-Ended _ r3.1 (ap was_started f) (restarted r3.0 s2)))

module _ {W : Type 0} (bus : Bus W) (watch : Watch W) (addr : ℕ) (pages : ℕ → List ℕ) where
  -- Whatever the bus does.
  pub flash_image-Ended :
      (image_len : ℕ) (w : W)
      → Ended bus watch addr pages
          (image_len / page_bytes)
          (flash_image (traced bus) (traced_watch watch) addr pages image_len (fresh w))
  unfolding flash_image
  flash_image-Ended image_len w =
      let t = fresh w in
      let count = image_len / page_bytes in
      let r1 = await_bootloader (traced bus) addr t in
      let r2 = verify_chip (traced bus) addr r1.1 in
      let report = record blank_report { step = r2.0 } in
      let r3 =
        flash_steps (traced bus) (traced_watch watch) addr pages (step_count count) count 0 report
          r2.1 in
      let rest = leave (traced bus) (traced_watch watch) addr pages r3.0 r3.1 in
      let P = Ended bus watch addr pages count in
      let s1 = await_bootloader-Session bus addr pages count (at 0 false) t opened in
      let s2 = verify_chip-Session bus addr pages count (at 0 false) r1.1 s1 in
      let (whole, torn) = Stepped-split bus watch addr pages count (step_count count) r3 (
        flash_steps-Stepped bus watch addr pages count (step_count count) 0 report r2.1
          (omega arith) refl s2) in
      if_both P (not (image_fits image_len)) (record blank_report { result = image_too_large }, t) _
        (unstarted-Ended bus watch addr pages count _ t 0 refl (false, opened))
        (if_both P (not r1.0) (record blank_report { result = bootloader_silent }, r1.1) _
          (unstarted-Ended bus watch addr pages count _ r1.1 0 refl (false, s1))
          (if_both P (not (is_ok r2.0)) (record report { result = chip_mismatch }, r2.1) _
            (unstarted-Ended bus watch addr pages count _ r2.1 0 refl (false, s2))
            (if_known P (is_finished r3.0.result) rest r3
              (λ e.
                leave-Ended bus watch addr pages count r3.0 r3.1
                  (is_finished-≡ bus watch addr pages count r3.0.result e) (whole e))
              (λ e.
                let (u, m, o) = torn e in
                unstarted-Ended bus watch addr pages count r3.0 r3.1 m u o))))
