-- ===== src/Unit/Update.antt =====
-- firmware/v2/Unit/BootUpdateAvr.h: the unit's rewrite of its own bootloader, with the classifier of
-- firmware/v2/shared/BootSectionClassify.h. The chip's calls are those of Boot.Hardware, made through
-- do_spm; the new image, its page 7 and its two checksums come from a generated header, and are
-- parameters. Not modelled: the interrupt, TWI and EEPROM registers around it, and the registers of
-- stage 1.
pub mod Reading
pub mod Order
pub mod Ending
pub mod Rewrite
pub mod Gates
mod Tests
use split_flap.Common.{
  ℕ, zero, suc, ◌+◌, ◌-◌, ◌*◌, ◌/◌, ◌%◌, bit_and, bit_xor, List, [], ◌∷◌, ◌++◌, Bool, true, false,
  not, ◌&&◌, ◌||◌, ◌==◌, ◌!=◌, if◌then◌else◌, get_or, replicate,
}
use split_flap.Boot.Hardware.{page_size, Hardware, fill_words}

-- `BootSectionState`
pub data BootSectionState : Type 0 where
  unknown old page7_installed trampoline new prev_new : BootSectionState

-- `BootSectionFacts`
pub record BootSectionFacts : Type 0 where
  pub full_crc32 : ℕ
  pub pages0_6_crc32 : ℕ
  pub page0_word0 : ℕ
  pub page0_word1 : ℕ

abbrev pub trampoline_word0 : ℕ
trampoline_word0 = 0x940c

abbrev pub trampoline_word1 : ℕ
trampoline_word1 = 0

-- `classifyBootSection`
unfoldable pub classify_boot_section : BootSectionFacts → ℕ → ℕ → BootSectionState
classify_boot_section f new_full_crc32 page7_installed_crc32 =
    if f.full_crc32 == new_full_crc32
    then new
    else if f.full_crc32 == 0xe422a668 || f.full_crc32 == 0x081c2954 || f.full_crc32 == 0xc65e3dbf
    then prev_new
    else if f.full_crc32 == 0x18173add
    then old
    else if f.full_crc32 == page7_installed_crc32
    then page7_installed
    else if f.page0_word0 == trampoline_word0 && f.page0_word1 == trampoline_word1
    then trampoline
    else if f.pages0_6_crc32 == 0x2524e944
    then old
    else unknown

-- `bootLockPermitsBootWrite`
unfoldable pub lock_permits_boot_write : ℕ → Bool
lock_permits_boot_write lock_byte = bit_and lock_byte 0x10 != 0

-- `BootUpdateResult`; `installing` stands for stage 1, which does not return but ends in a reset.
pub data BootUpdateResult : Type 0 where
  nothing stage2_ok refused_state refused_lock verify_failed installing : BootUpdateResult

abbrev pub section_start : ℕ
section_start = 0x7c00

-- The shifts of `bootCrc32Update`, `n` to go.
unfoldable pub crc_shifts : ℕ → ℕ → ℕ
crc_shifts zero crc = crc
crc_shifts (suc n) crc =
    crc_shifts n (if crc % 2 == 1 then bit_xor (crc / 2) 0xedb88320 else crc / 2)

unfoldable pub crc32_update : ℕ → ℕ → ℕ
unfolding crc_shifts
crc32_update crc b = crc_shifts 8 (bit_xor crc b)

-- The running value over the next `n` bytes, from `a` on.
unfoldable pub crc_from : (ℕ → ℕ) → ℕ → ℕ → ℕ → ℕ
unfolding crc32_update
crc_from read zero a crc = crc
crc_from read (suc n) a crc = crc_from read n (a + 1) (crc32_update crc (read a))

unfoldable pub crc_of : (ℕ → ℕ) → ℕ → ℕ
unfolding crc_from
crc_of read len = 0xffffffff - crc_from read len 0 0xffffffff

-- What a call wrote: the trampoline, do_spm into page 7, or a page of the image.
pub data Act : Type 0 where
  to_trampoline to_do_spm : Act
  to_image : ℕ → Act

-- The flash, and a log of the pages written with the flash that each found, newest first.
pub record Updater (F : Type 0) : Type 0 where
  pub flash : F
  pub log : List (Act × F)

abbrev pub trampoline_page : List ℕ
trampoline_page = 0x0c ∷ 0x94 ∷ 0 ∷ 0 ∷ replicate 124 0xff

-- The bytes of the image from `off` on.
unfoldable pub slice : List ℕ → ℕ → ℕ → List ℕ
slice image zero off = []
slice image (suc n) off = get_or image off 0 ∷ slice image n (off + 1)

abbrev pub is_new : BootSectionState → Bool
is_new new = true
is_new _ = false

-- The states that stage 2 starts from.
abbrev pub for_stage2 : BootSectionState → Bool
for_stage2 page7_installed = true
for_stage2 trampoline = true
for_stage2 prev_new = true
for_stage2 _ = false

module _ {F E : Type 0} (hw : Hardware F E) (image : List ℕ) where
  -- A byte of the boot section.
  abbrev pub boot_at : F → ℕ → ℕ
  boot_at f off = hw.read_flash f (section_start + off)

  abbrev pub boot_word : F → ℕ → ℕ
  boot_word f off = boot_at f off + boot_at f (off + 1) * 256

  -- `bootReadFacts`
  unfoldable pub read_facts : F → BootSectionFacts
  unfolding crc_of
  read_facts f = record {
    full_crc32 = crc_of (boot_at f) 1024;
    pages0_6_crc32 = crc_of (boot_at f) 896;
    page0_word0 = boot_word f 0;
    page0_word1 = boot_word f 2;
  }

  -- The loop of `bootPageMatchesImage`, `n` bytes to go.
  unfoldable pub matches_from : F → ℕ → ℕ → Bool
  matches_from f zero off = true
  matches_from f (suc n) off = boot_at f off == get_or image off 0 && matches_from f n (off + 1)

  unfoldable pub page_matches_image : F → ℕ → Bool
  unfolding matches_from
  page_matches_image f page = matches_from f page_size (page * page_size)

  unfoldable pub page0_is_trampoline : F → Bool
  page0_is_trampoline f = boot_word f 0 == trampoline_word0 && boot_word f 2 == trampoline_word1

  -- Erase, fill, write and release of a page.
  unfoldable pub program : ℕ → List ℕ → F → F
  program page bytes f =
      hw.rww_enable (hw.page_write page (fill_words hw page bytes (hw.page_erase page f)))

  unfoldable pub write_page_from_image : ℕ → Updater F → Updater F
  unfolding program slice
  write_page_from_image page u = record u {
    flash =
        program (section_start + page * page_size) (slice image page_size (page * page_size))
          u.flash;
    log = (to_image page, u.flash) ∷ u.log;
  }

  unfoldable pub write_trampoline_page : Updater F → Updater F
  unfolding program
  write_trampoline_page u = record u {
    flash = program section_start trampoline_page u.flash;
    log = (to_trampoline, u.flash) ∷ u.log;
  }

  -- `bootStage1InstallDoSpm`: what its jump into the write handler of the fielded bootloader does to
  -- the flash, which is to erase, fill and write page 7 with `new_twiboot_page7`, and to release it.
  unfoldable pub install_do_spm : List ℕ → Updater F → Updater F
  unfolding program
  install_do_spm page7 u = record u {
    flash = program (section_start + 7 * page_size) page7 u.flash;
    log = (to_do_spm, u.flash) ∷ u.log;
  }

  -- Stage 1 by the state and whether the lock bits permit it.
  unfoldable pub start_stage1 :
      List ℕ → BootSectionState → Bool → Updater F → BootUpdateResult × Updater F
  unfolding install_do_spm
  start_stage1 page7 old permitted u =
      if permitted then (installing, install_do_spm page7 u) else (refused_lock, u)
  start_stage1 page7 _ permitted u = (refused_state, u)

  -- The loop of `bootWriteTrampolineVerified`, `n` attempts left.
  unfoldable pub trampoline_in : ℕ → Updater F → Bool × Updater F
  unfolding write_trampoline_page page0_is_trampoline
  trampoline_in zero u = (false, u)
  trampoline_in (suc n) u =
      let v = write_trampoline_page u in
      let again = trampoline_in n v in if page0_is_trampoline v.flash then (true, v) else again

  unfoldable pub write_trampoline_verified : Updater F → Bool × Updater F
  unfolding trampoline_in
  write_trampoline_verified u = trampoline_in 3 u

  -- The loop over the pages 1 to 6, `n` of them to go.
  unfoldable pub rewrite_pages : ℕ → ℕ → Bool → Updater F → Bool × Updater F
  unfolding page_matches_image write_page_from_image
  rewrite_pages zero page ok u = (ok, u)
  rewrite_pages (suc n) page ok u =
      let v = write_page_from_image page u in
      let skip = rewrite_pages n (page + 1) true u in
      let rewritten = rewrite_pages n (page + 1) (page_matches_image v.flash page) v in
      if not ok then (false, u) else if page_matches_image u.flash page then skip else rewritten

  module _ (new_crc32 page7_installed_crc32 : ℕ) where
    unfoldable pub current_state : F → BootSectionState
    unfolding read_facts classify_boot_section
    current_state f = classify_boot_section (read_facts f) new_crc32 page7_installed_crc32

    -- The last step of stage 2.
    unfoldable pub write_page0 : Updater F → BootUpdateResult × Updater F
    write_page0 u =
        let v = write_page_from_image 0 u in
        if page_matches_image v.flash 0
        then ((if is_new (current_state v.flash) then stage2_ok else verify_failed), v)
        else (verify_failed, (write_trampoline_verified v).1)

    unfoldable pub stage2_rewrite : Updater F → BootUpdateResult × Updater F
    stage2_rewrite u =
        let (ok, v) =
          if page0_is_trampoline u.flash then (true, u) else write_trampoline_verified u in
        let (ok', w) = rewrite_pages 6 1 ok v in
        if not (page_matches_image u.flash 7)
        then (refused_state, u)
        else if ok'
        then write_page0 w
        else (verify_failed, w)

    -- `bootRunStage`, by the bytes of do_spm.
    unfoldable pub run_stage : List ℕ → ℕ → ℕ → Updater F → BootUpdateResult × Updater F
    unfolding start_stage1
    run_stage page7 stage lock_byte u =
        let state = current_state u.flash in
        let permitted = lock_permits_boot_write lock_byte in
        if stage == 1
        then start_stage1 page7 state permitted u
        else if stage == 2
        then if not (for_stage2 state)
          then (refused_state, u)
          else if not permitted
          then (refused_lock, u)
          else stage2_rewrite u
        else (refused_state, u)

    unfoldable pub auto_resume : Updater F → BootUpdateResult × Updater F
    auto_resume u = elim (current_state u.flash) [
      | trampoline ↦ stage2_rewrite u
      | _ ↦ (nothing, u)
    ]
