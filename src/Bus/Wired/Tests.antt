-- ===== src/Bus/Wired/Tests.antt =====
-- A unit on the wire, and the witness for a whole flash of it.
use split_flap.Common.{
  ℕ, ◌+◌, ◌-◌, ◌*◌, ◌/◌, ◌<◌, ◌≤◌, ◌≡◌, ◌⊎◌, inl, refl, List, [], true, false, replicate, IsByte,
  All, arith,
}
use split_flap.Boot.State.{lean, wait}
use split_flap.Boot.Chip.{Flash, chip, chip-IsSpm}
use split_flap.Bus.Flash.{finished, post_boot_silent, UnitFlashReport, Watch, flash_image}
use split_flap.Bus.Wired.{World, Setting, wired}
use split_flap.Bus.Wired.Timer.{IsPaced}
use split_flap.Bus.Wired.Pages.{PageIs}
use split_flap.Bus.Wired.Install.{LetsRun, flash_image-Installs}

-- A frame takes 3 ms and a page write 9, the timer overflows every 16, and the sketch ACKs.
abbrev wire : Setting
wire = record {
  cost = 3;
  busy = 9;
  overflows = λ t ms. (t + ms) / 16 - t / 16;
  sketch_status = λ t bytes. 0;
  sketch_bytes = λ t qty. replicate qty 0xff;
}

wire-IsPaced : IsPaced wire
wire-IsPaced t ms = omega arith

-- A blank unit in its bootloader.
abbrev blank_flash : Flash
blank_flash = record { mem = λ a. 0xff; page = λ i. 0xff }

abbrev blank_unit : World Flash (ℕ → ℕ)
blank_unit = record {
  boot = record {
    cmd = wait;
    boot_timeout = 8;
    boot_prescale = 0;
    app_installed = false;
    buf = replicate 128 0;
    addr = 0;
    bcnt = 0;
    acking = true;
    twdr = 0;
    flash = blank_flash;
    eeprom = λ a. 0xff;
    crash_a = 0;
    crash_b = 0;
    overrun = false;
  };
  started = false;
  clock = 4294967290;
  free_at = 0;
  target = 0;
  queued = [];
}

abbrev patient : Watch (World Flash (ℕ → ℕ))
patient = record { keep_going = λ w. (true, w); page_rewritten = λ a n w. w }

patient-LetsRun : LetsRun lean wire patient
patient-LetsRun = record { going = λ w. refl; keeps = λ slack f w up. up }

abbrev sevens : ℕ → List ℕ
sevens k = replicate 128 7

sevens-IsByte : (k : ℕ) → All IsByte (sevens k)
sevens-IsByte k = omega arith

abbrev flashed : UnitFlashReport × World Flash (ℕ → ℕ)
flashed = flash_image (wired chip lean wire 5) patient 5 sevens 384 blank_unit

flash_image-Installs_example :
    ((flashed.0.result ≡ finished) ⊎ (flashed.0.result ≡ post_boot_silent))
    × (flashed.1.started ≡ true)
    × ((k : ℕ) → k < 3 → PageIs chip flashed.1.boot.flash (k * 128) (sevens k))
    × ((a : ℕ)
        → 3 * 128 ≤ a
        → chip.read_flash flashed.1.boot.flash a ≡ chip.read_flash blank_flash a)
flash_image-Installs_example =
    flash_image-Installs chip chip-IsSpm lean wire 5 wire-IsPaced
      (record { frames = omega arith; writes = omega arith }) patient patient-LetsRun sevens
      (λ k. refl) sevens-IsByte 384 blank_flash blank_unit (omega arith)
      (record {
        live = refl;
        waiting = record {
          in_loop = refl;
          acks = refl;
          whole = refl;
          lasts = inl refl;
          prescale = omega arith;
          holds = refl;
        };
        free_soon = omega arith;
      })
      (omega arith)
