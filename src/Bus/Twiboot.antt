-- ===== src/Bus/Twiboot.antt =====
-- firmware/v2/shared/TwibootFlash.h: the client of the bootloader. A buffer that a call fills is
-- the value of an Option, `none` being the return value false.
pub mod Ready
use split_flap.Common.{
  ℕ, zero, suc, ◌+◌, ◌/◌, ◌%◌, Option, none, some, List, [], ◌∷◌, ◌++◌, Bool, true, false, not,
  ◌&&◌, ◌||◌, ◌==◌, ◌!=◌, ltb, leb, if◌then◌else◌, length, get_or, replicate, sub32, u32,
}
use split_flap.Bus.Adapter.{Bus, transmit}

-- `TwibootStep`
pub data TwibootStep : Type 0 where
  ok chip_request_failed chip_short_read chip_bad_signature chip_bad_page_size page_not_ready
        page_burst_truncated page_write_failed page_stuck_busy page_read_failed
        page_verify_mismatch :
      TwibootStep

abbrev pub is_ok : TwibootStep → Bool
is_ok ok = true
is_ok _ = false

abbrev pub page_bytes : ℕ
page_bytes = 128

abbrev pub boot_section_start : ℕ
boot_section_start = 0x7c00

abbrev pub page_write_attempts : ℕ
page_write_attempts = 2

abbrev pub page_read_attempts : ℕ
page_read_attempts = 3

unfoldable pub image_fits : ℕ → Bool
image_fits len = leb len boot_section_start

unfoldable pub is_atmega328p : ℕ → ℕ → ℕ → Bool
is_atmega328p sig0 sig1 sig2 = sig0 == 0x1e && sig1 == 0x95 && sig2 == 0x0f

-- The commands: CMD_WAIT, SWITCH_APPLICATION, the chip information, a place in the flash.
abbrev pub wait_command : List ℕ
wait_command = 0 ∷ []

abbrev pub exit_command : List ℕ
exit_command = 1 ∷ 0x80 ∷ []

abbrev pub chipinfo_command : List ℕ
chipinfo_command = 2 ∷ 0 ∷ 0 ∷ 0 ∷ []

abbrev pub flash_command : ℕ → List ℕ
flash_command flash_addr = 2 ∷ 1 ∷ (flash_addr / 256 % 256) ∷ (flash_addr % 256) ∷ []

-- `memcmp(a, b, ...) == 0` of two buffers of one length.
unfoldable pub same_bytes : List ℕ → List ℕ → Bool
same_bytes [] [] = true
same_bytes (a ∷ xs) (b ∷ ys) = a == b && same_bytes xs ys
same_bytes _ _ = false

abbrev pub hold_code : List ℕ
hold_code =
    0xf8 ∷ 0x94 ∷ 0x88 ∷ 0xe1 ∷ 0x80 ∷ 0x93 ∷ 0x60 ∷ 0x00 ∷ 0x88 ∷ 0xe0 ∷ 0x80 ∷ 0x93 ∷ 0x60 ∷ 0x00
    ∷ 0xff ∷ 0xcf ∷ []

-- `twibootFillHoldPage`
unfoldable pub hold_page : List ℕ
hold_page = hold_code ++ replicate 112 0xff

module _ {W : Type 0} (bus : Bus W) (addr : ℕ) where
  unfoldable pub ping : W → ℕ × W
  unfolding transmit
  ping w = transmit bus addr wait_command true w

  unfoldable pub exit : W → ℕ × W
  unfolding transmit
  exit w = transmit bus addr exit_command true w

  -- The loop of `twibootWaitReady`; the first argument is the fuel.
  unfoldable pub poll_until : ℕ → ℕ → W → Bool × W
  unfolding ping
  poll_until zero deadline w = (false, w)
  poll_until (suc fuel) deadline w =
      let (now, w1) = bus.now_ms w in
      let (status, w2) = ping w1 in
      let again = poll_until fuel deadline (bus.sleep_ms 1 w2) in
      if ltb (sub32 now deadline) 2147483648
      then (false, w1)
      else if status == 0
      then (true, w2)
      else again

  unfoldable pub wait_ready : ℕ → W → Bool × W
  unfolding poll_until
  wait_ready timeout w =
      let (now, w1) = bus.now_ms w in poll_until (suc timeout) (u32 (now + timeout)) w1

  -- The loop of `twibootAwaitBootloader`, with `n` attempts left.
  unfoldable pub await_bootloader_in : ℕ → W → Bool × W
  unfolding ping
  await_bootloader_in zero w = (false, w)
  await_bootloader_in (suc n) w =
      let (status, w1) = ping w in
      let again = await_bootloader_in n (bus.sleep_ms 100 w1) in
      if status == 0 then (true, w1) else again

  unfoldable pub await_bootloader : W → Bool × W
  unfolding await_bootloader_in
  await_bootloader w = await_bootloader_in 5 w

  -- A command without STOP and the read of `qty` bytes behind it: the status of the command, and
  -- the bytes.
  unfoldable pub ask : List ℕ → ℕ → W → Option (List ℕ) × W
  unfolding transmit
  ask command qty w =
      let (status, w1) = transmit bus addr command false w in
      let (bytes, w2) = bus.receive addr qty w1 in
      if status == 0 then (some bytes, w2) else (none, w1)

  -- The rest of `twibootIsBootloader`, from its reply.
  unfoldable pub check_signature : Option (List ℕ) × W → Bool × W
  unfolding is_atmega328p
  check_signature (none, w) = (false, w)
  check_signature (some b, w) =
      if ltb (length b) 3
      then (false, bus.read_failed w)
      else (is_atmega328p (get_or b 0 0) (get_or b 1 0) (get_or b 2 0), w)

  unfoldable pub is_bootloader : W → Bool × W
  unfolding ask check_signature
  is_bootloader w = check_signature (ask chipinfo_command 8 w)

  -- The rest of `twibootVerifyChip`, from its reply.
  unfoldable pub check_chip : Option (List ℕ) × W → TwibootStep × W
  unfolding is_atmega328p
  check_chip (none, w) = (chip_request_failed, w)
  check_chip (some b, w) =
      if length b != 8
      then (chip_short_read, bus.read_failed w)
      else if not (is_atmega328p (get_or b 0 0) (get_or b 1 0) (get_or b 2 0))
      then (chip_bad_signature, w)
      else if get_or b 3 0 != page_bytes
      then (chip_bad_page_size, w)
      else (ok, w)

  unfoldable pub verify_chip : W → TwibootStep × W
  unfolding ask check_chip
  verify_chip w = check_chip (ask chipinfo_command 8 w)

  -- A reply of `n` bytes, or a failed read.
  unfoldable pub whole_reply : ℕ → Option (List ℕ) × W → Option (List ℕ) × W
  whole_reply n (none, w) = (none, w)
  whole_reply n (some b, w) = if length b != n then (none, bus.read_failed w) else (some b, w)

  unfoldable pub read_flash_page : ℕ → W → Option (List ℕ) × W
  unfolding ask whole_reply
  read_flash_page flash_addr w =
      whole_reply page_bytes (ask (flash_command flash_addr) page_bytes w)

  unfoldable pub write_flash_page : ℕ → List ℕ → W → TwibootStep × W
  write_flash_page flash_addr page w =
      let (queued, w1) = bus.queue addr (flash_command flash_addr ++ page) w in
      let (status, w2) = bus.end_transmission true w1 in
      if queued != page_bytes + 4
      then (page_burst_truncated, w1)
      else if status == 0
      then (ok, w2)
      else (page_write_failed, w2)

  -- The first of two reads that brought a page.
  unfoldable pub or_again : Option (List ℕ) → W → Option (List ℕ) × W → Option (List ℕ) × W
  or_again none w again = again
  or_again (some b) w again = (some b, w)

  -- The reads of a page, with `n` attempts left.
  unfoldable pub read_back : ℕ → ℕ → W → Option (List ℕ) × W
  unfolding read_flash_page or_again
  read_back zero flash_addr w = (none, w)
  read_back (suc n) flash_addr w =
      let (page, w1) = read_flash_page flash_addr w in or_again page w1 (read_back n flash_addr w1)

  -- The verdict on a page that was read back; `again` is the next attempt.
  unfoldable pub judge_page :
      List ℕ → ℕ → Option (List ℕ) → W → TwibootStep × ℕ × W → TwibootStep × ℕ × W
  unfolding same_bytes
  judge_page page rewrites none w again = (page_read_failed, rewrites, w)
  judge_page page rewrites (some b) w again = if same_bytes b page then (ok, rewrites, w) else again

  -- The loop of `twibootFlashAndVerifyPage`, with `n` attempts left: the step, the rewrites
  -- counted.
  unfoldable pub page_attempts : ℕ → ℕ → List ℕ → ℕ → W → TwibootStep × ℕ × W
  unfolding wait_ready write_flash_page read_back judge_page
  page_attempts zero flash_addr page rewrites w = (page_verify_mismatch, rewrites, w)
  page_attempts (suc n) flash_addr page rewrites w =
      let (before, w1) = wait_ready 100 w in
      let (wrote, w2) = write_flash_page flash_addr page w1 in
      let (behind, w3) = wait_ready 50 w2 in
      let (reply, w4) = read_back page_read_attempts flash_addr w3 in
      let again = page_attempts n flash_addr page (rewrites + 1) w4 in
      if not before
      then (page_not_ready, rewrites, w1)
      else if not (is_ok wrote)
      then (wrote, rewrites, w2)
      else if not behind
      then (page_stuck_busy, rewrites, w3)
      else judge_page page rewrites reply w4 again

  unfoldable pub flash_and_verify_page : ℕ → List ℕ → W → TwibootStep × ℕ × W
  unfolding page_attempts
  flash_and_verify_page flash_addr page w = page_attempts page_write_attempts flash_addr page 0 w

  -- The loop of `twibootAwaitSketch`, with `n` attempts left.
  unfoldable pub await_sketch_in : ℕ → W → Bool × W
  unfolding transmit
  await_sketch_in zero w = (false, w)
  await_sketch_in (suc n) w =
      let (status, w1) = transmit bus addr [] true (bus.sleep_ms 500 w) in
      let again = await_sketch_in n w1 in if status == 0 then (true, w1) else again

  unfoldable pub await_sketch : W → Bool × W
  unfolding await_sketch_in
  await_sketch w = await_sketch_in 5 w
