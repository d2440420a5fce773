-- ===== src/Bus/Flash.antt =====
-- firmware/v2/shared/UnitBusTwiboot.h: the flash of one unit.
pub mod Trace
pub mod Quiet
pub mod Session
pub mod Safety
use split_flap.Common.{
  ℕ, zero, suc, ◌+◌, ◌*◌, ◌/◌, List, [], ◌∷◌, Bool, true, false, not, ◌==◌, ltb, if◌then◌else◌, u16,
}
use split_flap.Bus.Adapter.{Bus}
use split_flap.Bus.Sketch.{reboot_sketch}
use split_flap.Bus.Twiboot.{
  TwibootStep, ok, is_ok, page_bytes, image_fits, hold_page, exit, await_bootloader, verify_chip,
  flash_and_verify_page, await_sketch,
}

-- `UnitFlashResult`
pub data UnitFlashResult : Type 0 where
  finished image_too_large bootloader_silent chip_mismatch page_failed exit_failed post_boot_silent
        aborted :
      UnitFlashResult

abbrev pub is_finished : UnitFlashResult → Bool
is_finished finished = true
is_finished _ = false

-- `UnitFlashReport`
pub record UnitFlashReport : Type 0 where
  pub result : UnitFlashResult
  pub step : TwibootStep
  pub page_addr : ℕ  -- uint16_t
  pub reboot_status : ℕ

abbrev pub blank_report : UnitFlashReport
blank_report = record { result = finished; step = ok; page_addr = 0; reboot_status = 0 }

-- `watch`, over the state of the bus's world.
pub record Watch (W : Type 0) : Type 0 where
  pub keep_going : W → Bool × W
  pub page_rewritten : ℕ → ℕ → W → W

-- The page that a step of the loop writes: the last one goes back to page 0.
unfoldable pub step_index : ℕ → ℕ → ℕ
step_index page_count step = if step == page_count then 0 else step

-- What it writes there: the hold page first.
unfoldable pub step_page : (ℕ → List ℕ) → ℕ → ℕ → List ℕ
unfolding step_index
step_page pages page_count step =
    if step == 0 then hold_page else pages (step_index page_count step)

unfoldable pub step_addr : ℕ → ℕ → ℕ
unfolding step_index
step_addr page_count step = u16 (step_index page_count step * page_bytes)

-- One write more than the image has pages.
abbrev pub step_count : ℕ → ℕ
step_count page_count = if page_count == 0 then 0 else page_count + 1

module _ {W : Type 0} (bus : Bus W) (watch : Watch W) (addr : ℕ) (pages : ℕ → List ℕ) where
  -- One step of the loop: the result, which is `finished` where the loop goes on.
  unfoldable pub flash_step : ℕ → ℕ → UnitFlashReport → W → UnitFlashReport × W
  unfolding flash_and_verify_page step_page step_addr
  flash_step page_count step report w =
      let (go_on, w1) = watch.keep_going w in
      let flash_addr = step_addr page_count step in
      let (s, rewrites, w2) =
        flash_and_verify_page bus addr flash_addr (step_page pages page_count step) w1 in
      let w3 = if ltb 0 rewrites then watch.page_rewritten flash_addr rewrites w2 else w2 in
      if not go_on
      then (record report { result = aborted }, w1)
      else if not (is_ok s)
      then (record report { step = s; result = page_failed; page_addr = flash_addr }, w3)
      else (record report { step = s }, w3)

  -- The steps from `step` on, `left` of them to go.
  unfoldable pub flash_steps : ℕ → ℕ → ℕ → UnitFlashReport → W → UnitFlashReport × W
  unfolding flash_step
  flash_steps zero page_count step report w = (report, w)
  flash_steps (suc left) page_count step report w =
      let (r, w1) = flash_step page_count step report w in
      let rest = flash_steps left page_count (step + 1) r w1 in
      if is_finished r.result then rest else (r, w1)

  -- The exit, the wait for the sketch and its restart.
  unfoldable pub leave : UnitFlashReport → W → UnitFlashReport × W
  unfolding exit await_sketch reboot_sketch
  leave report w =
      let (status, w1) = exit bus addr w in
      let (up, w2) = await_sketch bus addr w1 in
      let (rebooted, w3) = reboot_sketch bus addr w2 in
      if not (status == 0)
      then (record report { result = exit_failed }, w1)
      else if not up
      then (record report { result = post_boot_silent }, w2)
      else (record report { reboot_status = rebooted }, w3)

  unfoldable pub flash_image : ℕ → W → UnitFlashReport × W
  unfolding image_fits await_bootloader verify_chip flash_steps leave
  flash_image image_len w =
      let (live, w1) = await_bootloader bus addr w in
      let (chip, w2) = verify_chip bus addr w1 in
      let page_count = image_len / page_bytes in
      let report = record blank_report { step = chip } in
      let (r, w3) = flash_steps (step_count page_count) page_count 0 report w2 in
      let rest = leave r w3 in
      if not (image_fits image_len)
      then (record blank_report { result = image_too_large }, w)
      else if not live
      then (record blank_report { result = bootloader_silent }, w1)
      else if not (is_ok chip)
      then (record report { result = chip_mismatch }, w2)
      else if is_finished r.result
      then rest
      else (r, w3)
