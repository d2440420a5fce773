-- ===== src/Boot/Startup.antt =====
-- main.c: the crash record and the start values of `main`, `TIMER0_OVF_vect`, and the countdown of
-- `main`'s loop. The record's two bytes survive a watchdog reset; the Bool of `start` is the WDRF
-- bit that GPIOR0 keeps of MCUSR.
use split_flap.Common.{
  ℕ, zero, suc, ◌+◌, ◌-◌, ◌*◌, ◌≤◌, ◌<◌, ◌≡◌, ◌↔◌, ◌≢◌, ◌⊎◌, inl, inr, sym, ◌∙◌, refl, Bool, true,
  false, not, ◌&&◌, ◌==◌, ◌!=◌, ltb, leb, if◌then◌else◌, bit_and, bit_or, bit_xor, u8, not8, arith,
  ◌||◌, replicate,
}
use split_flap.Common.Table.{table_256, at_byte}
use split_flap.Boot.Hardware.{page_size}
use split_flap.Boot.State.{
  Image, fielded, lean, wait, boot_application, fielded_timeout, lean_start_timeout,
  boot_prescale_limit, Boot,
}

abbrev pub crash_rec_tag : ℕ
crash_rec_tag = 0xa0

abbrev pub crash_rec_threshold : ℕ
crash_rec_threshold = 3

-- The count that `main` goes on with, from the reset cause and the record that it finds.
unfoldable pub crash_count : Bool → ℕ → ℕ → ℕ
crash_count false a b = 0
crash_count true a b =
    if bit_xor a b != 0xff
    then 1
    else if bit_and a 0xf0 != crash_rec_tag
    then 1
    else if ltb (bit_and a 0x0f) 15
    then bit_and a 0x0f + 1
    else bit_and a 0x0f

-- The record written for a count: CRASH_REC_A and CRASH_REC_B.
unfoldable pub crash_record : ℕ → ℕ × ℕ
crash_record count = (bit_or crash_rec_tag count, not8 (bit_or crash_rec_tag count))

module _ {F E : Type 0} where
  -- The static variables and registers behind a reset. The flash, the EEPROM and the two bytes of
  -- the crash record keep what they hold.
  unfoldable pub init : Boot F E → Boot F E
  init s = record s {
    cmd = wait;
    boot_prescale = 0;
    app_installed = true;
    buf = replicate page_size 0;
    addr = 0;
    bcnt = 0;
    acking = true;
    overrun = false;
  }

  -- `main` up to its loop. `blank` is that the first word of the flash reads as 0xFFFF.
  unfoldable pub start : Image → Bool → Bool → Boot F E → Boot F E
  unfolding init crash_count crash_record
  start fielded watchdog blank s = record (init s) {
    boot_timeout = fielded_timeout;
    app_installed = not blank;
  }
  start lean watchdog blank s =
      let count = crash_count watchdog s.crash_a s.crash_b in
      let (a, b) = crash_record count in
      record (init s) {
        crash_a = a;
        crash_b = b;
        app_installed = not blank && ltb count crash_rec_threshold;
        boot_timeout = lean_start_timeout;
      }

  unfoldable pub count_down : Boot F E → Boot F E
  count_down s =
      if ltb 1 s.boot_timeout
      then record s { boot_timeout = s.boot_timeout - 1 }
      else if s.boot_timeout == 1
      then record s { cmd = boot_application }
      else s

  -- `TIMER0_OVF_vect`
  unfoldable pub timer0_ovf : Image → Boot F E → Boot F E
  unfolding count_down
  timer0_ovf fielded s = if s.app_installed then count_down s else s
  timer0_ovf lean s =
      let prescale = u8 (s.boot_prescale + 1) in
      if s.app_installed
      then if leb boot_prescale_limit prescale
        then count_down (record s { boot_prescale = 0 })
        else record s { boot_prescale = prescale }
      else s

  -- `n` overflows of the timer, with no traffic between them.
  unfoldable pub ticks : Image → ℕ → Boot F E → Boot F E
  ticks image zero s = s
  ticks image (suc n) s = ticks image n (timer0_ovf image s)

  -- What one tick does to a countdown that runs.
  CountsDown : Boot F E → Boot F E → Type 0
  CountsDown s u =
      (u.app_installed ≡ true)
      × (u.cmd ≡ s.cmd)
      × (1 ≤ u.boot_timeout)
      × (u.boot_prescale < boot_prescale_limit)
      × (boot_prescale_limit * u.boot_timeout + s.boot_prescale + 1
          ≡ boot_prescale_limit * s.boot_timeout + u.boot_prescale)

  one_tick :
      (s : Boot F E)
      → s.app_installed ≡ true
      → 1 ≤ s.boot_timeout
      → s.boot_prescale < boot_prescale_limit
      → ((((timer0_ovf lean s).cmd ≡ boot_application)
          × (boot_prescale_limit * s.boot_timeout ≡ s.boot_prescale + 1)))
        ⊎ CountsDown s (timer0_ovf lean s)
  unfolding timer0_ovf count_down CountsDown
  one_tick s i t p = ground arith

  tick_stays :
      (s : Boot F E) → s.cmd ≡ boot_application → (timer0_ovf lean s).cmd ≡ boot_application
  unfolding timer0_ovf count_down
  tick_stays s h = ground arith

  ticks_stay :
      (n : ℕ) (s : Boot F E) → s.cmd ≡ boot_application → (ticks lean n s).cmd ≡ boot_application
  unfolding ticks
  ticks_stay zero s h = h
  ticks_stay (suc n) s h = ticks_stay n (timer0_ovf lean s) (tick_stays s h)

  -- With an application installed and the countdown armed, the lean image leaves its loop at the
  -- tick that ends the countdown, boot_timeout times 8 ticks less those already counted, and not
  -- before.
  pub lean_countdown :
      (n : ℕ) (s : Boot F E)
      → s.app_installed ≡ true
      → s.cmd ≢ boot_application
      → 1 ≤ s.boot_timeout
      → s.boot_prescale < boot_prescale_limit
      → ((ticks lean n s).cmd ≡ boot_application)
        ↔ (boot_prescale_limit * s.boot_timeout ≤ n + s.boot_prescale)
  unfolding ticks CountsDown
  lean_countdown zero s i b t p = ground arith
  lean_countdown (suc n) s i b t p = elim (one_tick s i t p) [
    | inl (e, k) ↦ ground (arith, ticks_stay n (timer0_ovf lean s) e)
    | inr (i', c, t', p', k) ↦
        ground (arith, lean_countdown n (timer0_ovf lean s) i' (λ e. b (sym c ∙ e)) t' p')
  ]

-- A record that was written is read back, one higher, and the count stops at 15.
read_back : ℕ → Bool
unfolding crash_record crash_count
read_back count =
    let (a, b) = crash_record count in
    leb 16 count || (crash_count true a b == (if ltb count 15 then count + 1 else 15))

read_back_table : table_256 read_back ≡ true
unfolding table_256 read_back crash_record crash_count
read_back_table = refl

next_count :
    (count : ℕ)
    → count ≤ 15
    → crash_count true (crash_record count).0 (crash_record count).1
      ≡ (if ltb count 15 then count + 1 else 15)
unfolding read_back
next_count count h = ground (arith, at_byte read_back read_back_table count)

module _ {F E : Type 0} (blank : Bool) where
  -- A reset by another cause and then `n` watchdog resets, each before the application clears the
  -- record.
  unfoldable pub starts : ℕ → Boot F E → Boot F E
  starts zero s = start lean false blank s
  starts (suc n) s = start lean true blank (starts n s)

  Holds : ℕ → Boot F E → Type 0
  Holds count s =
      (s.crash_a ≡ (crash_record count).0)
      × (s.crash_b ≡ (crash_record count).1)
      × (s.app_installed ≡ not blank && ltb count crash_rec_threshold)

  start-Holds :
      (watchdog : Bool) (s : Boot F E)
      → Holds (crash_count watchdog s.crash_a s.crash_b) (start lean watchdog blank s)
  unfolding Holds start
  start-Holds watchdog s = (refl, refl, refl)

  start_next :
      (count : ℕ) (s : Boot F E)
      → count ≤ 15
      → Holds count s
      → Holds (if ltb count 15 then count + 1 else 15) (start lean true blank s)
  unfolding Holds
  start_next count s h (a, b, i) =
      let e : crash_count true s.crash_a s.crash_b ≡ (if ltb count 15 then count + 1 else 15) =
        rw (a, b) (next_count count h) in
      rw e at (start-Holds true s)

  starts-Holds :
      (n : ℕ) (s : Boot F E)
      → (count : ℕ) × (count ≡ (if ltb n 15 then n else 15)) × Holds count (starts n s)
  unfolding starts crash_count
  starts-Holds zero s = (0, refl, start-Holds false s)
  starts-Holds (suc n) s =
      let (count, e, holds) = starts-Holds n s in
      (
        (if ltb count 15 then count + 1 else 15),
        ground arith,
        start_next count (starts n s) (ground arith) holds,
      )

  -- After a reset of another cause and `n` watchdog resets in a row, the lean image treats the
  -- application as installed exactly when the flash is not blank and `n` is below 3.
  pub holds_crashing_unit :
      (n : ℕ) (s : Boot F E) → (starts n s).app_installed ≡ not blank && ltb n crash_rec_threshold
  unfolding Holds
  holds_crashing_unit n s = ground (arith, starts-Holds n s)
