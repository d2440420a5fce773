-- ===== src/Unit/Update/Order.antt =====
-- BootUpdateAvr.h: the order in which stage 2 writes, whatever the chip makes of the writes.
use split_flap.Common.{
  ℕ, zero, suc, ◌+◌, ◌*◌, ◌<◌, ◌≡◌, inl, inr, refl, ◌∙◌, List, ◌∷◌, Bool, true, false, ◌==◌,
  if_known, Bool-cases, All, arith,
}
use split_flap.Boot.Hardware.{page_size, Hardware}
use split_flap.Unit.Update.{
  Act, to_trampoline, to_do_spm, to_image, Updater, section_start, trampoline_page,
  page_matches_image, page0_is_trampoline, program, write_page_from_image, write_trampoline_page,
  trampoline_in, write_trampoline_verified, rewrite_pages,
}
use split_flap.Unit.Update.Reading.{
  IsLocal, program-keeps, page_matches_image-program, page0_is_trampoline-program,
}

module _ {F E : Type 0} (hw : Hardware F E) (image : List ℕ) where
  -- What must hold of the flash when a page is written. A reset before a write of the pages 1 to 6
  -- starts the application; page 0 becomes the image's only with all others in place.
  abbrev pub MayWrite : Act × F → Type 0
  MayWrite (to_trampoline, f) = page_matches_image hw image f 7 ≡ true
  MayWrite (to_do_spm, f) = ⊥
  MayWrite (to_image zero, f) = (k : ℕ) → 0 < k → k < 8 → page_matches_image hw image f k ≡ true
  MayWrite (to_image (suc k), f) =
      (suc k < 7)
      × (page0_is_trampoline hw image f ≡ true)
      × (page_matches_image hw image f 7 ≡ true)

  -- The last three writes were of the trampoline, and page 0 held none behind any of them.
  pub record GaveUp (u : Updater F) : Type 0 where
    pub first : F
    pub second : F
    pub third : F
    pub earlier : List (Act × F)
    pub writes :
        u.log ≡ (to_trampoline, third) ∷ (to_trampoline, second) ∷ (to_trampoline, first) ∷ earlier
    pub behind_first : page0_is_trampoline hw image second ≡ false
    pub behind_second : page0_is_trampoline hw image third ≡ false
    pub behind_third : page0_is_trampoline hw image u.flash ≡ false

  -- An updater that did what it may, on a chip that held `start`.
  pub record InOrder (start : F) (u : Updater F) : Type 0 where
    pub writes : All MayWrite u.log
    pub page7 : page_matches_image hw image u.flash 7 ≡ true
    pub application : (a : ℕ) → a < section_start → hw.read_flash u.flash a ≡ hw.read_flash start a

module _ {F E : Type 0} (hw : Hardware F E) (local : IsLocal hw) (image : List ℕ) (start : F) where
  abbrev pub Kept : Updater F → Type 0
  Kept u = InOrder hw image start u

  program-application :
      (page : ℕ) (bytes : List ℕ) (f : F) (a : ℕ)
      → a < section_start
      → hw.read_flash (program hw image (section_start + page * page_size) bytes f) a
        ≡ hw.read_flash f a
  program-application page bytes f a l =
      program-keeps hw local image (section_start + page * page_size) bytes f a
        (λ e. absurd (omega (arith, e)))

  pub write_page_from_image-InOrder :
      (page : ℕ) (u : Updater F)
      → page < 7
      → MayWrite hw image (to_image page, u.flash)
      → Kept u
      → Kept (write_page_from_image hw image page u)
  unfolding write_page_from_image
  write_page_from_image-InOrder page u l may p = record {
    writes = (may, p.writes);
    page7 =
        page_matches_image-program hw local image page 7 _ u.flash (λ e. absurd (omega (arith, e)))
          p.page7;
    application = λ a m. program-application page _ u.flash a m ∙ p.application a m;
  }

  write_trampoline_page-InOrder : (u : Updater F) → Kept u → Kept (write_trampoline_page hw image u)
  unfolding write_trampoline_page
  write_trampoline_page-InOrder u p = record {
    writes = (p.page7, p.writes);
    page7 =
        page_matches_image-program hw local image 0 7 trampoline_page u.flash
          (λ e. absurd (omega (arith, e))) p.page7;
    application = λ a m. program-application 0 trampoline_page u.flash a m ∙ p.application a m;
  }

  -- The trampoline is there, or the attempts are used up.
  pub trampoline_in-InOrder :
      (n : ℕ) (u : Updater F)
      → Kept u
      → let (ok, v) = trampoline_in hw image n u in
        Kept v × (ok ≡ true → page0_is_trampoline hw image v.flash ≡ true)
  unfolding trampoline_in
  trampoline_in-InOrder zero u p = (p, λ e. absurd (ground (arith, e)))
  trampoline_in-InOrder (suc n) u p =
      let v = write_trampoline_page hw image u in
      let q = write_trampoline_page-InOrder u p in
      if_known
        (λ (r : Bool × Updater F).
          Kept r.1 × (r.0 ≡ true → page0_is_trampoline hw image r.1.flash ≡ true))
        (page0_is_trampoline hw image v.flash) (true, v) (trampoline_in hw image n v)
        (λ t. (q, λ e. t)) (λ t. trampoline_in-InOrder n v q)

  -- The pages below `page` match, from 1 on.
  abbrev pub MatchBelow : ℕ → F → Type 0
  MatchBelow page f = (k : ℕ) → 0 < k → k < page → page_matches_image hw image f k ≡ true

  MatchBelow-suc :
      (page : ℕ) (f : F)
      → MatchBelow page f
      → page_matches_image hw image f page ≡ true
      → MatchBelow (page + 1) f
  MatchBelow-suc page f below here k z l = elim (Bool-cases (k == page)) [
    | inl e ↦ let e' : k ≡ page = ground (arith, e) in rw e' here
    | inr e ↦ below k z (ground (arith, e))
  ]

  -- What the loop over the pages leaves.
  abbrev pub Rewritten : Bool × Updater F → Type 0
  Rewritten (ok, v) =
      Kept v × (page0_is_trampoline hw image v.flash ≡ true) × (ok ≡ true → MatchBelow 7 v.flash)

  may_rewrite :
      (page : ℕ) (f : F)
      → 0 < page
      → page < 7
      → page0_is_trampoline hw image f ≡ true
      → page_matches_image hw image f 7 ≡ true
      → MayWrite hw image (to_image page, f)
  may_rewrite zero f z l t m = absurd (omega arith)
  may_rewrite (suc k) f z l t m = (l, t, m)

  -- A write of a page keeps the trampoline and the pages before it.
  pub write_page_from_image-keeps :
      (page : ℕ) (u : Updater F)
      → 0 < page
      → let v = write_page_from_image hw image page u in
        (page0_is_trampoline hw image v.flash ≡ page0_is_trampoline hw image u.flash)
        × (MatchBelow page u.flash → MatchBelow page v.flash)
  unfolding write_page_from_image
  write_page_from_image-keeps page u z = (
    page0_is_trampoline-program hw local image page _ u.flash (λ e. absurd (omega (arith, e))),
    λ below k y l.
        page_matches_image-program hw local image page k _ u.flash (λ e. absurd (omega (arith, e)))
          (below k y l),
  )

  pub rewrite_pages-InOrder :
      (n page : ℕ) (ok : Bool) (u : Updater F)
      → page + n ≡ 7
      → 0 < page
      → Kept u
      → page0_is_trampoline hw image u.flash ≡ true
      → (ok ≡ true → MatchBelow page u.flash)
      → Rewritten (rewrite_pages hw image n page ok u)
  unfolding rewrite_pages
  rewrite_pages-InOrder zero page ok u e z p t h =
      let e' : page ≡ 7 = omega (arith, e) in (p, t, λ x. rw e' at (h x))
  rewrite_pages-InOrder (suc n) page false u e z p t h = (p, t, λ x. absurd (ground (arith, x)))
  rewrite_pages-InOrder (suc n) page true u e z p t h =
      let v = write_page_from_image hw image page u in
      let below = h refl in
      let (t', below') = write_page_from_image-keeps page u z in
      if_known Rewritten (page_matches_image hw image u.flash page)
        (rewrite_pages hw image n (page + 1) true u)
        (rewrite_pages hw image n (page + 1) (page_matches_image hw image v.flash page) v)
        (λ m.
          rewrite_pages-InOrder n (page + 1) true u (omega (arith, e)) (omega arith) p t
            (λ x. MatchBelow-suc page u.flash below m))
        (λ m.
          rewrite_pages-InOrder n (page + 1) (page_matches_image hw image v.flash page) v
            (omega (arith, e)) (omega arith)
            (write_page_from_image-InOrder page u (omega (arith, e))
              (may_rewrite page u.flash z (omega (arith, e)) t p.page7) p)
            (t' ∙ t) (λ x. MatchBelow-suc page v.flash (below' below) x))

  pub gave_up :
      (u : Updater F)
      → let r = write_trampoline_verified hw image u in r.0 ≡ false → GaveUp hw image r.1
  unfolding write_trampoline_verified trampoline_in write_trampoline_page
  gave_up u =
      let v = write_trampoline_page hw image u in
      let w = write_trampoline_page hw image v in
      let x = write_trampoline_page hw image w in
      let P = λ (r : Bool × Updater F). r.0 ≡ false → GaveUp hw image r.1 in
      if_known P (page0_is_trampoline hw image v.flash) (true, v) (trampoline_in hw image 2 v)
        (λ t e. absurd (ground (arith, e)))
        (λ one.
          if_known P (page0_is_trampoline hw image w.flash) (true, w) (trampoline_in hw image 1 w)
            (λ t e. absurd (ground (arith, e)))
            (λ two.
              if_known P (page0_is_trampoline hw image x.flash) (true, x) (false, x)
                (λ t e. absurd (ground (arith, e)))
                (λ three e. record {
                  first = u.flash;
                  second = v.flash;
                  third = w.flash;
                  earlier = u.log;
                  writes = refl;
                  behind_first = one;
                  behind_second = two;
                  behind_third = three;
                })))
