-- ===== src/Unit/Update/Tests.antt =====
-- Witnesses for firmware/v2/Unit/BootUpdateAvr.h.
use split_flap.Common.{
  ◌-◌, ℕ, ◌+◌, ◌<◌, ◌≡◌, ◌⊎◌, refl, List, [], ◌∷◌, true, leb, if◌then◌else◌, get_or, arith,
  replicate, IsByte,
}
use split_flap.Boot.Chip.{Flash, chip, chip-IsSpm}
use split_flap.Boot.Twi.Page.{get_or-All}
use split_flap.Unit.Update.{
  Updater, old, installing, stage2_ok, crc_of, section_start, page_matches_image,
  lock_permits_boot_write, for_stage2, current_state, stage2_rewrite, run_stage,
}
use split_flap.Unit.Update.Reading.{IsSpm-IsLocal}
use split_flap.Unit.Update.Order.{InOrder}
use split_flap.Unit.Update.Ending.{Ends, stage2_rewrite-InOrder}
use split_flap.Unit.Update.Rewrite.{stage2_rewrite-Installs}
use split_flap.Unit.Update.Gates.{Refused, Installed, run_stage-gated}

-- An image of three bytes and zeros, and a chip that holds its page 7 and is erased elsewhere.
abbrev short_image : List ℕ
short_image = 0xf8 ∷ 0x94 ∷ 0x88 ∷ []

abbrev half_done : Flash
half_done = record { mem = λ a. if leb 0x7f80 a then 0 else 0xff; page = λ i. 0xff }

half_done-page7 : page_matches_image chip short_image half_done 7 ≡ true
unfolding page_matches_image
half_done-page7 = refl

abbrev before : Updater Flash
before = record { flash = half_done; log = [] }

stage2_rewrite-InOrder_example :
    InOrder chip short_image half_done (stage2_rewrite chip short_image 1 2 before).1
    × Ends chip short_image (stage2_rewrite chip short_image 1 2 before)
stage2_rewrite-InOrder_example =
    stage2_rewrite-InOrder chip (IsSpm-IsLocal chip chip-IsSpm) short_image half_done 1 2
      half_done-page7

abbrev checksum : ℕ
checksum = crc_of (λ a. get_or short_image a 0) 1024

stage2_rewrite-Installs_example :
    ((stage2_rewrite chip short_image checksum 2 before).0 ≡ stage2_ok)
    × ((k : ℕ)
        → k < 8
        → page_matches_image chip short_image
            (stage2_rewrite chip short_image checksum 2 before).1.flash
            k
          ≡ true)
    × ((a : ℕ)
        → a < section_start
        → chip.read_flash (stage2_rewrite chip short_image checksum 2 before).1.flash a
          ≡ chip.read_flash half_done a)
stage2_rewrite-Installs_example =
    stage2_rewrite-Installs chip chip-IsSpm short_image
      (λ i. get_or-All short_image i (omega arith)) checksum 2 refl half_done half_done-page7

abbrev blank_page7 : List ℕ
blank_page7 = replicate 128 0xff

blank_bytes : (i : ℕ) → i < 128 → IsByte (get_or blank_page7 i 0)
blank_bytes i l = get_or-All blank_page7 i (omega arith)

-- A chip whose boot section has the checksum of the fielded bootloader.
abbrev fielded_unit : Updater Flash
fielded_unit = record {
  flash = record {
    mem = λ a.
        if leb 0x7c00 a then get_or (0x17 ∷ 0x3d ∷ 0x1b ∷ 0x52 ∷ []) (a - 0x7c00) 0xff else 0xff;
    page = λ i. 0xff;
  };
  log = [];
}

stage1_runs : (run_stage chip short_image 1 2 blank_page7 1 0xff fielded_unit).0 ≡ installing
unfolding run_stage current_state lock_permits_boot_write
stage1_runs = refl

run_stage-gated_example :
    let r = run_stage chip short_image 1 2 blank_page7 1 0xff fielded_unit in
    Refused fielded_unit r
    ⊎ ((◌≡◌ {A = ℕ} 1 1
          × (current_state chip short_image 1 2 fielded_unit.flash ≡ old)
          × (lock_permits_boot_write 0xff ≡ true)
          × Installed chip chip-IsSpm short_image blank_page7 refl blank_bytes fielded_unit r)
        ⊎ (◌≡◌ {A = ℕ} 1 2
            × (for_stage2 (current_state chip short_image 1 2 fielded_unit.flash) ≡ true)
            × (lock_permits_boot_write 0xff ≡ true)
            × (r ≡ stage2_rewrite chip short_image 1 2 fielded_unit)))
run_stage-gated_example =
    run_stage-gated chip chip-IsSpm short_image blank_page7 refl blank_bytes 1 2 1 0xff fielded_unit

-- The check value of CRC-32: of the bytes "123456789".
crc_of_check : crc_of (λ a. 0x31 + a) 9 ≡ 0xcbf43926
unfolding crc_of
crc_of_check = refl
