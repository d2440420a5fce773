-- ===== src/Unit/Update/Ending.antt =====
-- BootUpdateAvr.h: stage 2 keeps to its order, and how it may end, whatever the chip makes of the
-- writes.
use split_flap.Common.{
  if_both, ℕ, zero, suc, ◌<◌, ◌≡◌, ◌⊎◌, inl, inr, refl, ap, List, [], Bool, true, false, not, ◌==◌,
  if◌then◌else◌, if_false, if_known, Bool-cases, arith,
}
use split_flap.Boot.Hardware.{Hardware}
use split_flap.Unit.Update.{
  is_new, current_state, Updater, BootUpdateResult, stage2_ok, verify_failed, page_matches_image,
  page0_is_trampoline, write_page_from_image, write_trampoline_verified, rewrite_pages, write_page0,
  stage2_rewrite,
}
use split_flap.Unit.Update.Reading.{IsLocal, page_matches_image-program}
use split_flap.Unit.Update.Order.{
  InOrder, GaveUp, MatchBelow, write_page_from_image-InOrder, trampoline_in-InOrder,
  rewrite_pages-InOrder, gave_up,
}

-- How stage 2 may end, with one of two results: the image is in place, or page 0 is one that a reset
-- can boot from, unless three writes of the trampoline in a row did not take.
abbrev pub Ends : {F E : Type 0} → Hardware F E → List ℕ → BootUpdateResult × Updater F → Type 0
Ends hw image (r, u) =
    ((r ≡ stage2_ok) × ((k : ℕ) → k < 8 → page_matches_image hw image u.flash k ≡ true))
    ⊎ ((r ≡ verify_failed)
        × ((page_matches_image hw image u.flash 0 ≡ true)
            ⊎ ((page0_is_trampoline hw image u.flash ≡ true) ⊎ GaveUp hw image u)))

module _ {F E : Type 0} (hw : Hardware F E) (local : IsLocal hw) (image : List ℕ) (start : F)
    (new_crc32 page7_installed_crc32 : ℕ) where
  pub others_match :
      (f : F)
      → MatchBelow hw local image start 7 f
      → page_matches_image hw image f 7 ≡ true
      → (k : ℕ) → 0 < k
      → k < 8
      → page_matches_image hw image f k ≡ true
  others_match f below last k z l = elim (Bool-cases (k == 7)) [
    | inl e ↦ let e' : k ≡ 7 = ground (arith, e) in rw e' last
    | inr e ↦ below k z (ground (arith, e))
  ]

  -- Behind the write of page 0, every page matches if page 0 does.
  pub all_match :
      (u : Updater F)
      → ((k : ℕ) → 0 < k → k < 8 → page_matches_image hw image u.flash k ≡ true)
      → let v = write_page_from_image hw image 0 u in
        page_matches_image hw image v.flash 0 ≡ true
        → (k : ℕ) → k < 8
        → page_matches_image hw image v.flash k ≡ true
  unfolding write_page_from_image
  all_match u others m zero l = m
  all_match u others m (suc k) l =
      page_matches_image-program hw local image 0 (suc k) _ u.flash (λ e. absurd (omega (arith, e)))
        (others (suc k) (omega arith) l)

  write_page0-Ends :
      (u : Updater F)
      → InOrder hw image start u
      → MatchBelow hw local image start 7 u.flash
      → let r = write_page0 hw image new_crc32 page7_installed_crc32 u in
        InOrder hw image start r.1 × Ends hw image r
  unfolding write_page0 write_trampoline_verified
  write_page0-Ends u p below =
      let v = write_page_from_image hw image 0 u in
      let others = others_match u.flash below p.page7 in
      let q = write_page_from_image-InOrder hw local image start 0 u (omega arith) others p in
      let x = write_trampoline_verified hw image v in
      let (kept, done) = trampoline_in-InOrder hw local image start 3 v q in
      let P = λ (r : BootUpdateResult × Updater F). InOrder hw image start r.1 × Ends hw image r in
      if_known P (page_matches_image hw image v.flash 0) _ (verify_failed, x.1)
        (λ m.
          if_both (λ (y : BootUpdateResult). InOrder hw image start v × Ends hw image (y, v))
            (is_new (current_state hw image new_crc32 page7_installed_crc32 v.flash)) stage2_ok
            verify_failed (q, inl (refl, all_match u others m)) (q, inr (refl, inl m)))
        (λ m. elim (Bool-cases x.0) [
          | inl ok ↦ (kept, inr (refl, inr (inl (done ok))))
          | inr lost ↦ (kept, inr (refl, inr (inr (gave_up hw local image start v lost))))
        ])

  -- Stage 2 from the trampoline on.
  abbrev pub behind : Bool × Updater F → BootUpdateResult × Updater F
  behind (ok, u) =
      if ok then write_page0 hw image new_crc32 page7_installed_crc32 u else (verify_failed, u)

  behind_trampoline :
      (ok : Bool) (u : Updater F)
      → InOrder hw image start u
      → (ok ≡ true → page0_is_trampoline hw image u.flash ≡ true)
      → (ok ≡ false → GaveUp hw image u)
      → let r = behind (rewrite_pages hw image 6 1 ok u) in
        InOrder hw image start r.1 × Ends hw image r
  unfolding rewrite_pages
  behind_trampoline false u p t g = (p, inr (refl, inr (inr (g refl))))
  behind_trampoline true u p t g =
      let y = rewrite_pages hw image 6 1 true u in
      let (kept, there, matched) =
        rewrite_pages-InOrder hw local image start 6 1 true u refl (omega arith) p (t refl)
          (λ e k z l. absurd (omega (arith, z, l))) in
      if_known (λ (r : BootUpdateResult × Updater F). InOrder hw image start r.1 × Ends hw image r)
        y.0 (write_page0 hw image new_crc32 page7_installed_crc32 y.1) (verify_failed, y.1)
        (λ e. write_page0-Ends y.1 kept (matched e)) (λ e. (kept, inr (refl, inr (inl there))))

  -- With page 7 in place: stage 2 on any chip whose self-programming touches only the page that it is
  -- given. Each write finds what it may (the pages 1 to 6 only behind the trampoline, the image's page
  -- 0 only with all others in place), page 7 and all below the boot section are kept. It ends in
  -- STAGE2_OK with the image in place, or else in VERIFY_FAILED, with a page 0 that is the image's or
  -- the trampoline, unless the last three writes were of the trampoline and none of them took.
  pub stage2_rewrite-InOrder :
      page_matches_image hw image start 7 ≡ true
      → let r =
          stage2_rewrite hw image new_crc32 page7_installed_crc32
            (record { flash = start; log = [] }) in
        InOrder hw image start r.1 × Ends hw image r
  unfolding stage2_rewrite write_trampoline_verified
  stage2_rewrite-InOrder page7 =
      let u : Updater F = record { flash = start; log = [] } in
      let p : InOrder hw image start u = record {
        writes = tt;
        page7 = page7;
        application = λ a l. refl;
      } in
      let x = write_trampoline_verified hw image u in
      let (kept, done) = trampoline_in-InOrder hw local image start 3 u p in
      let P = λ (r : BootUpdateResult × Updater F). InOrder hw image start r.1 × Ends hw image r in
      let begun : Bool × Updater F = if page0_is_trampoline hw image start then (true, u) else x in
      let went : stage2_rewrite hw image new_crc32 page7_installed_crc32 u
          ≡ behind (rewrite_pages hw image 6 1 begun.0 begun.1) =
        if_false _ _ _ (ap not page7) in
      rw went (
        if_known (λ (y : Bool × Updater F). P (behind (rewrite_pages hw image 6 1 y.0 y.1)))
          (page0_is_trampoline hw image start) (true, u) x
          (λ t. behind_trampoline true u p (λ e. t) (λ e. absurd (ground (arith, e))))
          (λ t. behind_trampoline x.0 x.1 kept done (gave_up hw local image start u)))
