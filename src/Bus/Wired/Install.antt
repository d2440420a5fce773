-- ===== src/Bus/Wired/Install.antt =====
-- A flash of an image, by the row master's `unitFlashImage`, to a unit that runs the bootloader of
-- UnitBootloader/main.c: it succeeds, and the unit holds the image.
use split_flap.Common.{
  ℕ, zero, suc, ◌+◌, ◌*◌, ◌-◌, ◌/◌, ◌%◌, ◌<◌, ◌≤◌, ◌≡◌, ◌⊎◌, refl, ap, ◌∙◌, inl, inr, List, true,
  not, ◌==◌, ltb, leb, if◌then◌else◌, if_true, if_false, if_both, length, IsByte, All, arith,
}
use split_flap.Boot.Hardware.{page_size, bootloader_start, Hardware, IsSpm}
use split_flap.Boot.State.{Image}
use split_flap.Bus.Adapter.{transmit}
use split_flap.Bus.Twiboot.{
  is_ok, page_bytes, boot_section_start, hold_page, exit, exit_command, await_bootloader,
  verify_chip, flash_and_verify_page, await_sketch, image_fits,
}
use split_flap.Bus.Sketch.{reboot_sketch}
use split_flap.Bus.Flash.{
  finished, post_boot_silent, is_finished, UnitFlashReport, blank_report, Watch, step_index,
  step_page, step_addr, step_count, flash_step, flash_steps, leave, flash_image,
}
use split_flap.Bus.Wired.{World, Setting, wired}
use split_flap.Bus.Wired.Timer.{IsUp, IsPaced, IsUp-le}
use split_flap.Bus.Wired.Frames.{exit_lem}
use split_flap.Bus.Wired.Calls.{frame_free, reached, reached-IsUp}
use split_flap.Bus.Wired.Waits.{await_bootloader-IsReady}
use split_flap.Bus.Wired.Pages.{PageIs}
use split_flap.Bus.Wired.Replies.{verify_chip-IsUp}
use split_flap.Bus.Wired.Steps.{IsQuick, flash_and_verify_page-Stored}
use split_flap.Bus.Wired.Progress.{Progress, Progress-zero, Progress-suc, Progress-pages}
use split_flap.Bus.Wired.Started.{IsStarted, await_sketch-IsStarted, reboot_sketch-IsStarted}

-- A caller that lets the flash run: its hook says so, and leaves the unit up.
pub record LetsRun {F E : Type 0} (image : Image) (set : Setting) (watch : Watch (World F E))
    : Type 0 where
  pub going : (w : World F E) → (watch.keep_going w).0 ≡ true
  pub keeps :
      (slack : ℕ) (f : F) (w : World F E)
      → IsUp image set slack f w
      → IsUp image set slack f (watch.keep_going w).1

module _ {F E : Type 0} (hw : Hardware F E) (spm : IsSpm hw) (image : Image) (set : Setting)
    (addr : ℕ) (paced : IsPaced set) (quick : IsQuick set) (watch : Watch (World F E))
    (lets : LetsRun image set watch) (pages : ℕ → List ℕ)
    (whole : (k : ℕ) → length (pages k) ≡ page_bytes) (bytes : (k : ℕ) → All IsByte (pages k)) where
  -- A unit that is up behind `n` steps.
  record Underway (page_count : ℕ) (start : F) (n : ℕ) (w : World F E) : Type 0 where
    pub flash : F
    pub up : IsUp image set (1600 - set.cost) flash w
    pub free : w.free_at ≤ w.clock
    pub so_far : Progress hw pages page_count start n flash

  step_page-whole :
      (page_count n : ℕ)
      → (length (step_page pages page_count n) ≡ page_bytes)
        × All IsByte (step_page pages page_count n)
  unfolding step_page hold_page
  step_page-whole page_count n =
      if_both (λ (p : List ℕ). (length p ≡ page_bytes) × All IsByte p) (n == 0) hold_page
        (pages (step_index page_count n)) (refl, omega arith) (whole _, bytes _)

  step_addr_lem :
      (page_count n : ℕ)
      → page_count ≤ 248
      → n < step_count page_count
      → (step_addr page_count n ≡ step_index page_count n * 128)
        × (step_addr page_count n % page_size ≡ 0)
        × (step_addr page_count n < bootloader_start)
  unfolding step_addr step_index
  step_addr_lem page_count n c l = (ground arith, ground arith, ground arith)

  flash_step-Underway :
      (page_count n : ℕ) (start : F) (report : UnitFlashReport) (w : World F E)
      → page_count ≤ 248
      → n < step_count page_count
      → Underway page_count start n w
      → let r = flash_step (wired hw image set addr) watch addr pages page_count n report w in
        (r.0.result ≡ report.result) × Underway page_count start (suc n) r.1
  unfolding flash_step
  flash_step-Underway page_count n start report w c l now =
      let bus = wired hw image set addr in
      let w1 = (watch.keep_going w).1 in
      let (place, al, low) = step_addr_lem page_count n c l in
      let (n_bytes, all) = step_page-whole page_count n in
      let a = step_addr page_count n in
      let page = step_page pages page_count n in
      let s =
        flash_and_verify_page-Stored hw spm image set addr paced quick a page now.flash w1 al low
          n_bytes all (lets.keeps (1600 - set.cost) now.flash w now.up) in
      let x = flash_and_verify_page bus addr a page w1 in
      let e : flash_step bus watch addr pages page_count n report w
          ≡ (record report { step = x.0 }, x.2) =
        if_false _ _ _ (ap not (lets.going w))
        ∙ if_false _ _ _ (ap (λ t. not (is_ok t)) s.step)
        ∙ ap (λ (v : World F E). (record report { step = x.0 }, v))
            (if_false _ _ _ (ap (λ k. ltb 0 k) s.rewrites)) in
      rw e (
        refl,
        record {
          flash = s.flash;
          up = s.up;
          free = s.free;
          so_far =
              Progress-suc hw pages page_count start n now.flash s.flash l (rw place at s.inside)
                (rw place at s.outside) now.so_far;
        },
      )

  flash_steps-Underway :
      (left page_count n : ℕ) (start : F) (report : UnitFlashReport) (w : World F E)
      → page_count ≤ 248
      → n + left ≡ step_count page_count
      → report.result ≡ finished
      → Underway page_count start n w
      → let r = flash_steps (wired hw image set addr) watch addr pages left page_count n report w in
        (r.0.result ≡ finished) × Underway page_count start (step_count page_count) r.1
  unfolding flash_steps
  flash_steps-Underway zero page_count n start report w c l e now =
      let all : n ≡ step_count page_count = omega (arith, l) in (e, rw all at now)
  flash_steps-Underway (suc left) page_count n start report w c l e now =
      let bus = wired hw image set addr in
      let (same, next) = flash_step-Underway page_count n start report w c (omega (arith, l)) now in
      let r = flash_step bus watch addr pages page_count n report w in
      let done = same ∙ e in
      let more : n + 1 ≡ suc n = omega arith in
      let go : flash_steps bus watch addr pages (suc left) page_count n report w
          ≡ flash_steps bus watch addr pages left page_count (n + 1) r.0 r.1 =
        if_true _ _ _ (ap is_finished done) in
      rw (go, more)
        (flash_steps-Underway left page_count (suc n) start r.0 r.1 c (omega (arith, l)) done next)

  -- What the order to start the sketch leaves, and what comes behind it.
  exit-IsStarted :
      (f : F) (w : World F E)
      → IsUp image set (1600 - set.cost) f w
      → w.free_at ≤ w.clock
      → let r = exit (wired hw image set addr) addr w in (r.0 ≡ 0) × IsStarted f r.1
  unfolding exit transmit
  exit-IsStarted f w up free =
      let v = reached hw image set addr paced exit_command w in
      let (up', idled, clock, at, target, queued) =
        reached-IsUp hw image set addr paced exit_command 0 f w (
          IsUp-le image set (set.cost + 0) (1600 - set.cost) f w (omega (arith, quick.frames))
            up) in
      let (status, left, kept) = exit_lem hw 0 f v.boot image up'.waiting in
      let e =
        frame_free hw image set addr paced v up'.live target (omega (arith, clock, at, free))
          up'.waiting.acks in
      rw (e, queued) (status, record { started = left; flash = kept })

  leave-IsStarted :
      (f : F) (report : UnitFlashReport) (w : World F E)
      → report.result ≡ finished
      → IsUp image set (1600 - set.cost) f w
      → w.free_at ≤ w.clock
      → let r = leave (wired hw image set addr) watch addr pages report w in
        ((r.0.result ≡ finished) ⊎ (r.0.result ≡ post_boot_silent)) × IsStarted f r.1
  unfolding leave
  leave-IsStarted f report w e up free =
      let bus = wired hw image set addr in
      let (status, gone) = exit-IsStarted f w up free in
      let w1 = (exit bus addr w).1 in
      let up2 = await_sketch-IsStarted hw image set addr f w1 gone in
      let x = await_sketch bus addr w1 in
      let up3 = reboot_sketch-IsStarted hw image set addr f x.1 up2 in
      let z = reboot_sketch bus addr x.1 in
      let told : leave bus watch addr pages report w ≡ (
          if not x.0
          then (record report { result = post_boot_silent }, x.1)
          else (record report { reboot_status = z.0 }, z.1)) =
        if_false _ _ _ (ap (λ n. not (n == 0)) status) in
      rw told (
        if_both
          (λ (r : UnitFlashReport × World F E).
            ((r.0.result ≡ finished) ⊎ (r.0.result ≡ post_boot_silent)) × IsStarted f r.1)
          (not x.0) _ _ (inr refl, up2) (inl e, up3))

  -- On a chip with the datasheet's self-programming: a free unit whose bootloader waits on the wire,
  -- flashed with whole pages of bytes by a caller that lets it run, takes an image that ends below the
  -- bootloader, where a frame takes at most 700 ms, a page write less than 50 ms, and the timer
  -- overflows at most once a millisecond. The flash ends in `Ok` or `PostBootSilent`, the unit has
  -- left its bootloader, each page of its flash is the image's, and all behind the image is as it was.
  pub flash_image-Installs :
      (image_len : ℕ) (start : F) (w : World F E)
      → image_len ≤ boot_section_start
      → IsUp image set set.cost start w
      → w.free_at ≤ w.clock
      → let page_count = image_len / page_bytes in
        let (r, v) = flash_image (wired hw image set addr) watch addr pages image_len w in
        ((r.result ≡ finished) ⊎ (r.result ≡ post_boot_silent))
        × (v.started ≡ true)
        × ((k : ℕ) → k < page_count → PageIs hw v.boot.flash (k * 128) (pages k))
        × ((a : ℕ) → page_count * 128 ≤ a → hw.read_flash v.boot.flash a ≡ hw.read_flash start a)
  unfolding flash_image image_fits
  flash_image-Installs image_len start w fits up free =
      let bus = wired hw image set addr in
      let page_count = image_len / page_bytes in
      let (live, ready) = await_bootloader-IsReady hw image set addr paced start w up free in
      let w1 = (await_bootloader bus addr w).1 in
      let (chip, up2, free2) =
        verify_chip-IsUp hw image set addr paced quick.frames start w1 ready in
      let report = record blank_report { step = (verify_chip bus addr w1).0 } in
      let w2 = (verify_chip bus addr w1).1 in
      let steps = step_count page_count in
      let (done, end) =
        flash_steps-Underway steps page_count 0 start report w2 (omega arith) (omega arith) refl
          (record {
            flash = start;
            up = up2;
            free = free2;
            so_far = Progress-zero hw pages page_count start;
          }) in
      let r = flash_steps bus watch addr pages steps page_count 0 report w2 in
      let (result, gone) = leave-IsStarted end.flash r.0 r.1 done end.up end.free in
      let small : leb image_len boot_section_start ≡ true = ground arith in
      let e : flash_image bus watch addr pages image_len w ≡ leave bus watch addr pages r.0 r.1 =
        if_false _ _ _ (ap not small)
        ∙ if_false _ _ _ (ap not live)
        ∙ if_false _ _ _ (ap (λ t. not (is_ok t)) chip)
        ∙ if_true _ _ _ (ap is_finished done) in
      rw (e, gone.flash)
        (
          result,
          gone.started,
          Progress-pages hw pages page_count start end.flash end.so_far,
          end.so_far.beyond,
        )
