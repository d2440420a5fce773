-- ===== src/Unit/Update/Gates.antt =====
-- BootUpdateAvr.h: what a requested stage may do to the unit.
use split_flap.Common.{
  ℕ, ◌+◌, ◌*◌, ◌/◌, ◌≡◌, ◌≢◌, ◌⊎◌, inl, inr, refl, List, ◌∷◌, ◌∙◌, ◌<◌, length, get_or, IsByte,
  Bool, true, false, not, ◌==◌, if_known, arith,
}
use split_flap.Boot.Hardware.{page_size, Hardware, IsSpm}
use split_flap.Unit.Update.{
  to_do_spm, Updater, BootUpdateResult, BootSectionState, old, installing, refused_state,
  refused_lock, section_start, lock_permits_boot_write, for_stage2, current_state, program,
  install_do_spm, start_stage1, stage2_rewrite, run_stage,
}
use split_flap.Unit.Update.Reading.{IsSpm-IsLocal, program-keeps}

-- A request that was refused, and left the unit as it was.
abbrev pub Refused : {F : Type 0} → Updater F → BootUpdateResult × Updater F → Type 0
Refused u (r, v) = ((r ≡ refused_state) ⊎ (r ≡ refused_lock)) × (v ≡ u)

module _ {F E : Type 0} (hw : Hardware F E) (spm : IsSpm hw) (image page7 : List ℕ)
    (whole : length page7 ≡ page_size)
    (bytes : (i : ℕ) → i < page_size → IsByte (get_or page7 i 0)) where
  -- Stage 1 went on: it wrote page 7, once, which holds do_spm, and changed no other byte of the flash.
  pub record Installed (u : Updater F) (r : BootUpdateResult × Updater F) : Type 0 where
    pub result : r.0 ≡ installing
    pub writes : r.1.log ≡ (to_do_spm, u.flash) ∷ u.log
    pub do_spm :
        (i : ℕ)
        → i < page_size
        → hw.read_flash r.1.flash (section_start + 7 * page_size + i) ≡ get_or page7 i 0
    pub others :
        (a : ℕ)
        → a / page_size ≢ (section_start + 7 * page_size) / page_size
        → hw.read_flash r.1.flash a ≡ hw.read_flash u.flash a

  install_do_spm-Installed :
      (u : Updater F) → Installed u (installing, install_do_spm hw image page7 u)
  unfolding install_do_spm program
  install_do_spm-Installed u = record {
    result = refl;
    writes = refl;
    do_spm = λ i l.
        spm.enable_keeps _ _
        ∙ spm.programmed (section_start + 7 * page_size) page7 u.flash i refl whole bytes l;
    others =
        program-keeps hw (IsSpm-IsLocal hw spm) image (section_start + 7 * page_size) page7 u.flash;
  }

  start_stage1_lem :
      (state : BootSectionState) (permitted : Bool) (u : Updater F)
      → let r = start_stage1 hw image page7 state permitted u in
        Refused u r ⊎ ((state ≡ old) × (permitted ≡ true) × Installed u r)
  unfolding start_stage1
  start_stage1_lem old true u = inr (refl, refl, install_do_spm-Installed u)
  start_stage1_lem old false u = inl (inr refl, refl)
  start_stage1_lem _ permitted u = inl (inl refl, refl)

  module _ (new_crc32 page7_installed_crc32 : ℕ) where
    -- On a chip with the datasheet's self-programming, for a do_spm of a whole page of bytes, a request
    -- comes to one of three: it is refused, and the unit is as it was; or it was for stage 1, over the
    -- fielded bootloader and with the lock bits open, and page 7 was written once, holds do_spm, and
    -- nothing else changed; or it was for stage 2, from a state that stage 2 is for and with the lock
    -- bits open, and did what stage 2 does.
    pub run_stage-gated :
        (stage lock_byte : ℕ) (u : Updater F)
        → let r = run_stage hw image new_crc32 page7_installed_crc32 page7 stage lock_byte u in
          let state = current_state hw image new_crc32 page7_installed_crc32 u.flash in
          Refused u r
          ⊎ (((stage ≡ 1)
                × (state ≡ old)
                × (lock_permits_boot_write lock_byte ≡ true)
                × Installed u r)
              ⊎ ((stage ≡ 2)
                  × (for_stage2 state ≡ true)
                  × (lock_permits_boot_write lock_byte ≡ true)
                  × (r ≡ stage2_rewrite hw image new_crc32 page7_installed_crc32 u)))
    unfolding run_stage
    run_stage-gated stage lock_byte u =
        let state = current_state hw image new_crc32 page7_installed_crc32 u.flash in
        let permitted = lock_permits_boot_write lock_byte in
        let P = λ (r : BootUpdateResult × Updater F).
          Refused u r
          ⊎ (((stage ≡ 1) × (state ≡ old) × (permitted ≡ true) × Installed u r)
              ⊎ ((stage ≡ 2)
                  × (for_stage2 state ≡ true)
                  × (permitted ≡ true)
                  × (r ≡ stage2_rewrite hw image new_crc32 page7_installed_crc32 u))) in
        if_known P (stage == 1) _ _
          (λ one. elim (start_stage1_lem state permitted u) [
            | inl held ↦ inl held
            | inr (s, t, done) ↦ inr (inl (ground (arith, one), s, t, done))
          ])
          (λ other.
            if_known P (stage == 2) _ _
              (λ two.
                if_known P (not (for_stage2 state)) _ _ (λ e. inl (inl refl, refl))
                  (λ fit.
                    if_known P (not permitted) _ _ (λ e. inl (inr refl, refl))
                      (λ t.
                        inr (
                          inr
                            (ground (arith, two), ground (arith, fit), ground (arith, t), refl)))))
              (λ e. inl (inl refl, refl)))
