-- ===== src/Boot/Tests.antt =====
-- The bootloader on a chip, at concrete bursts and page transfers.
use split_flap.Common.{
  ℕ, zero, suc, ◌+◌, ◌*◌, ◌/◌, ◌<◌, ◌≤◌, ◌≡◌, ◌≢◌, ◌↔◌, refl, List, [], ◌∷◌, ◌++◌, true, false, not,
  ◌&&◌, arith, ltb, get_or, replicate, IsByte, All, none,
}
use split_flap.Boot.Hardware.{page_size, fill_words}
use split_flap.Boot.State.{fielded, lean, wait, boot_application, boot_prescale_limit, Boot}
use split_flap.Boot.Memory.{
  data_write, first_byte, second_byte, later_byte, store, write_eeprom_from, write_eeprom_byte,
  program_page,
}
use split_flap.Boot.Twi.{
  Event, slave_write, slave_read, got_acked, got_nacked, stop, twi_vect, on_stop, write_received,
  serve,
}
use split_flap.Boot.Twi.Safety.{boot_section_kept}
use split_flap.Boot.Twi.Overrun.{Sound, no_overrun}
use split_flap.Boot.Twi.Page.{got, page_transfer, page_programmed}
use split_flap.Boot.Twi.ReadBack.{page_request, put_out, page_read_back}
use split_flap.Boot.Startup.{
  ticks, lean_countdown, starts, crash_rec_threshold, holds_crashing_unit,
}
use split_flap.Boot.Loop.{Wake}
use split_flap.Boot.Chip.{Flash, fill, same_page, chip, chip-IsSpm}

All-replicate : (n b : ℕ) → IsByte b → All IsByte (replicate n b)
All-replicate zero b h = tt
All-replicate (suc n) b h = (h, All-replicate n b h)

-- The lean image, waiting for its master, on an erased chip.
abbrev waiting_boot : Boot Flash (ℕ → ℕ)
waiting_boot = record {
  cmd = wait;
  boot_timeout = 8;
  boot_prescale = 0;
  app_installed = true;
  buf = replicate page_size 0;
  addr = 0;
  bcnt = 0;
  acking = true;
  twdr = 0;
  flash = record { mem = λ a. 0xff; page = λ i. 0xff };
  eeprom = λ a. 0xff;
  crash_a = 0;
  crash_b = 0;
  overrun = false;
}

abbrev page_of_sevens : List ℕ
page_of_sevens = replicate page_size 7

page_programmed_example :
    let t = serve chip lean (page_transfer 1 128 page_of_sevens) waiting_boot in
    (t.addr ≡ 384 + page_size)
    × ((i : ℕ) → i < page_size → chip.read_flash t.flash (384 + i) ≡ get_or page_of_sevens i 0)
    × ((a : ℕ)
        → a / page_size ≢ 384 / page_size
        → chip.read_flash t.flash a ≡ chip.read_flash waiting_boot.flash a)
page_programmed_example =
    page_programmed chip chip-IsSpm lean 1 128 page_of_sevens waiting_boot (omega arith)
      (omega arith) (All-replicate page_size 7 (omega arith)) refl refl refl (omega arith)

abbrev burst : List Event
burst = slave_write ∷ got_acked 2 ∷ got_acked 1 ∷ got_acked 0 ∷ got_nacked 0 ∷ stop ∷ []

boot_section_kept_example :
    chip.read_flash (serve chip lean burst waiting_boot).flash 0x7c00
    ≡ chip.read_flash waiting_boot.flash 0x7c00
boot_section_kept_example =
    boot_section_kept chip chip-IsSpm lean burst waiting_boot 0x7c00 (omega arith)

waiting_boot-Sound : Sound chip false waiting_boot
waiting_boot-Sound = record {
  kept = refl;
  room = λ _ _. omega arith;
  no_read = λ e. ground (arith, e);
  no_write = λ e. ground (arith, e);
}

no_overrun_example : (serve chip lean burst waiting_boot).overrun ≡ false
no_overrun_example = no_overrun chip false burst waiting_boot refl waiting_boot-Sound

lean_countdown_example :
    ((ticks lean 64 waiting_boot).cmd ≡ boot_application) ↔ (boot_prescale_limit * 8 ≤ 64 + 0)
lean_countdown_example =
    lean_countdown 64 waiting_boot refl (λ e. ground (arith, e)) (omega arith) (omega arith)

holds_crashing_unit_example :
    (starts false 4 waiting_boot).app_installed ≡ not false && ltb 4 crash_rec_threshold
holds_crashing_unit_example = holds_crashing_unit false 4 waiting_boot

abbrev quiet_pass : Wake
quiet_pass = record { event = none; overflow = true }

-- The fielded image, an EEPROM burst of 129 bytes: the last one, without an ACK, is stored past
-- `buf`.
abbrev long_burst : List Event
long_burst = slave_write ∷ got (2 ∷ 2 ∷ 0 ∷ 0 ∷ page_of_sevens) ++ (got_nacked 9 ∷ [])

eeprom_burst_overruns : (serve chip fielded long_burst waiting_boot).overrun ≡ true
unfolding serve twi_vect data_write first_byte second_byte later_byte store on_stop write_received
    write_eeprom_from write_eeprom_byte
eeprom_burst_overruns = refl

-- A write without data, behind a page transfer, programs the same bytes to the next page.
abbrev empty_write : List Event
empty_write = page_transfer 1 128 page_of_sevens ++ (slave_write ∷ stop ∷ [])

empty_write_programs : chip.read_flash (serve chip lean empty_write waiting_boot).flash 512 ≡ 7
unfolding serve twi_vect data_write first_byte second_byte later_byte store on_stop write_received
    program_page fill_words fill same_page
empty_write_programs = refl

page_read_back_example :
    let t = serve chip lean (page_transfer 1 128 page_of_sevens) waiting_boot in
    get_or (put_out chip lean slave_read page_size (serve chip lean (page_request 1 128) t)) 127 0
    ≡ get_or page_of_sevens 127 0
page_read_back_example =
    page_read_back chip chip-IsSpm lean 1 128 page_of_sevens waiting_boot (omega arith)
      (omega arith) (All-replicate page_size 7 (omega arith)) refl refl refl (omega arith) 127
      (omega arith)
