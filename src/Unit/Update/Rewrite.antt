-- ===== src/Unit/Update/Rewrite.antt =====
-- BootUpdateAvr.h: stage 2 installs the image on a chip with the datasheet's self-programming.
use split_flap.Common.{
  ℕ, zero, suc, ◌+◌, ◌-◌, ◌*◌, ◌/◌, ◌%◌, ◌<◌, ◌≡◌, refl, sym, inl, inr, ap, ◌∙◌, List, [], Bool,
  true, false, not, ==_iff, if◌then◌else◌, if_true, if_false, if_both, if_known, length, get_or,
  IsByte, arith,
}
use split_flap.Boot.Hardware.{page_size, Hardware, IsSpm}
use split_flap.Boot.Twi.Page.{get_or-All}
use split_flap.Unit.Update.{
  Updater, stage2_ok, verify_failed, new, section_start, slice, trampoline_page, boot_at,
  classify_boot_section, read_facts, crc_from, crc_of, page_matches_image, page0_is_trampoline,
  program, write_page_from_image, write_trampoline_page, trampoline_in, write_trampoline_verified,
  rewrite_pages, is_new, current_state, write_page0, stage2_rewrite,
}
use split_flap.Unit.Update.Reading.{IsSpm-IsLocal, matches_from-get, matches_from-of_get}
use split_flap.Unit.Update.Order.{InOrder, trampoline_in-InOrder, rewrite_pages-InOrder}
use split_flap.Unit.Update.Ending.{behind, others_match, all_match, stage2_rewrite-InOrder}

crc_from-eq :
    (r s : ℕ → ℕ) (n a crc : ℕ)
    → ((i : ℕ) → i < n → r (a + i) ≡ s (a + i))
    → crc_from r n a crc ≡ crc_from s n a crc
unfolding crc_from
crc_from-eq r s zero a crc h = refl
crc_from-eq r s (suc n) a crc h =
    let z : a + 0 ≡ a = omega arith in
    let first : r a ≡ s a = rw z at (h 0 (omega arith)) in
    rw first (
      crc_from-eq r s n (a + 1) _
        (λ i l. let e : a + 1 + i ≡ a + suc i = omega arith in rw e (h (suc i) (omega arith))))

length-slice : (image : List ℕ) (n off : ℕ) → length (slice image n off) ≡ n
unfolding slice
length-slice image zero off = refl
length-slice image (suc n) off = ap suc (length-slice image n (off + 1))

get_or-slice :
    (image : List ℕ) (n off i : ℕ)
    → i < n
    → get_or (slice image n off) i 0 ≡ get_or image (off + i) 0
unfolding slice
get_or-slice image zero off i l = absurd (omega arith)
get_or-slice image (suc n) off zero l = let z : off + 0 ≡ off = omega arith in rw z refl
get_or-slice image (suc n) off (suc i) l =
    let e : off + suc i ≡ off + 1 + i = omega arith in
    rw e (get_or-slice image n (off + 1) i (omega arith))

module _ {F E : Type 0} (hw : Hardware F E) (spm : IsSpm hw) (image : List ℕ)
    (bytes : (i : ℕ) → IsByte (get_or image i 0)) where
  program-get :
      (page : ℕ) (sent : List ℕ) (f : F) (i : ℕ)
      → page % page_size ≡ 0
      → length sent ≡ page_size
      → ((j : ℕ) → j < page_size → IsByte (get_or sent j 0))
      → i < page_size
      → hw.read_flash (program hw image page sent f) (page + i) ≡ get_or sent i 0
  unfolding program
  program-get page sent f i al n small l =
      spm.enable_keeps _ _ ∙ spm.programmed page sent f i al n small l

  -- A page that is written reads as it should.
  write_page_from_image-matches :
      (page : ℕ) (u : Updater F)
      → page_matches_image hw image (write_page_from_image hw image page u).flash page ≡ true
  unfolding page_matches_image write_page_from_image
  write_page_from_image-matches page u =
      let off = page * page_size in
      let sent = slice image page_size off in
      let g = program hw image (section_start + off) sent u.flash in
      let sliced = get_or-slice image page_size off in
      matches_from-of_get hw image g page_size off (λ i l.
        let e : section_start + (off + i) ≡ section_start + off + i = omega arith in
        ap (hw.read_flash g) e
        ∙ program-get (section_start + off) sent u.flash i (omega arith)
            (length-slice image page_size off) (λ j m. rw (sliced j m) (bytes (off + j))) l
        ∙ sliced i l)

  write_trampoline_page-takes :
      (u : Updater F) → page0_is_trampoline hw image (write_trampoline_page hw image u).flash ≡ true
  unfolding page0_is_trampoline write_trampoline_page
  write_trampoline_page-takes u =
      let at : (i : ℕ)
          → i < 4
          → boot_at hw image (program hw image section_start trampoline_page u.flash) i
            ≡ get_or trampoline_page i 0 =
        λ i l.
          program-get section_start trampoline_page u.flash i refl refl
            (λ j m. get_or-All trampoline_page j (omega arith)) (omega arith) in
      rw (at 0 (omega arith), at 1 (omega arith), at 2 (omega arith), at 3 (omega arith)) refl

  rewrite_pages-ok : (n page : ℕ) (u : Updater F) → (rewrite_pages hw image n page true u).0 ≡ true
  unfolding rewrite_pages
  rewrite_pages-ok zero page u = refl
  rewrite_pages-ok (suc n) page u =
      let v = write_page_from_image hw image page u in
      let m = write_page_from_image-matches page u in
      if_both (λ (r : Bool × Updater F). r.0 ≡ true) (page_matches_image hw image u.flash page) _ _
        (rewrite_pages-ok n (page + 1) u) (rw m (rewrite_pages-ok n (page + 1) v))

  module _ (new_crc32 page7_installed_crc32 : ℕ)
      (checksum : crc_of (λ a. get_or image a 0) 1024 ≡ new_crc32) where
    -- A section that holds the image is classified as new.
    current_state-new :
        (f : F)
        → ((k : ℕ) → k < 8 → page_matches_image hw image f k ≡ true)
        → current_state hw image new_crc32 page7_installed_crc32 f ≡ new
    unfolding current_state read_facts classify_boot_section crc_of page_matches_image
    current_state-new f all =
        let at : (a : ℕ) → a < 1024 → boot_at hw image f a ≡ get_or image a 0 = λ a l.
          let e : a / page_size * page_size + a % page_size ≡ a = omega arith in
          rw e at (
            matches_from-get hw image f page_size (a / page_size * page_size)
              (all (a / page_size) (omega arith)) (a % page_size) (omega arith)) in
        let crc : crc_of (boot_at hw image f) 1024 ≡ new_crc32 =
          ap (λ c. 0xffffffff - c)
            (crc_from-eq (boot_at hw image f) (λ a. get_or image a 0) 1024 0 0xffffffff
              (λ i l. let z : 0 + i ≡ i = omega arith in rw z (at i l)))
          ∙ checksum in
        if_true _ _ _ ((==_iff _ _).1 crc)

    write_page0-ok :
        (u : Updater F)
        → ((k : ℕ) → 0 < k → k < 8 → page_matches_image hw image u.flash k ≡ true)
        → (write_page0 hw image new_crc32 page7_installed_crc32 u).0 ≡ stage2_ok
    unfolding write_page0
    write_page0-ok u others =
        let v = write_page_from_image hw image 0 u in
        let m = write_page_from_image-matches 0 u in
        let all =
          all_match hw (IsSpm-IsLocal hw spm) image v.flash new_crc32 page7_installed_crc32 u others
            m in
        let verdict =
          if_true (is_new (current_state hw image new_crc32 page7_installed_crc32 v.flash))
            stage2_ok verify_failed (ap is_new (current_state-new v.flash all)) in
        rw m verdict

    behind-ok :
        (start : F) (ok : Bool) (u : Updater F)
        → ok ≡ true
        → InOrder hw image start u
        → page0_is_trampoline hw image u.flash ≡ true
        → let local = IsSpm-IsLocal hw spm in
          (behind hw local image start new_crc32 page7_installed_crc32
            (rewrite_pages hw image 6 1 ok u)).0
          ≡ stage2_ok
    behind-ok start false u e p t = absurd (ground (arith, e))
    behind-ok start true u e p t =
        let local = IsSpm-IsLocal hw spm in
        let y = rewrite_pages hw image 6 1 true u in
        let (kept, there, matched) =
          rewrite_pages-InOrder hw local image start 6 1 true u refl (omega arith) p t
            (λ e k z l. absurd (omega (arith, z, l))) in
        let ok = rewrite_pages-ok 6 1 u in
        let others =
          others_match hw local image start new_crc32 page7_installed_crc32 y.1.flash (matched ok)
            kept.page7 in
        rw ok (write_page0-ok y.1 others)

    -- On a chip with the datasheet's self-programming, whose page 7 holds the image's: stage 2 ends in
    -- STAGE2_OK from whatever the other pages hold, with every page of the boot section the image's and
    -- all below it as it was, for an image of bytes whose checksum the header names.
    pub stage2_rewrite-Installs :
        (start : F)
        → page_matches_image hw image start 7 ≡ true
        → let (r, u) =
            stage2_rewrite hw image new_crc32 page7_installed_crc32
              (record { flash = start; log = [] }) in
          (r ≡ stage2_ok)
          × ((k : ℕ) → k < 8 → page_matches_image hw image u.flash k ≡ true)
          × ((a : ℕ) → a < section_start → hw.read_flash u.flash a ≡ hw.read_flash start a)
    unfolding stage2_rewrite write_trampoline_verified trampoline_in
    stage2_rewrite-Installs start page7 =
        let local = IsSpm-IsLocal hw spm in
        let u : Updater F = record { flash = start; log = [] } in
        let (order, ends) =
          stage2_rewrite-InOrder hw local image start new_crc32 page7_installed_crc32 page7 in
        let v = write_trampoline_page hw image u in
        let x = write_trampoline_verified hw image u in
        let takes = write_trampoline_page-takes u in
        let wrote : x ≡ (true, v) =
          if_true (page0_is_trampoline hw image v.flash) (true, v) (trampoline_in hw image 2 v)
            takes in
        let p : InOrder hw image start u = record {
          writes = tt;
          page7 = page7;
          application = λ a l. refl;
        } in
        let (kept, there) = trampoline_in-InOrder hw local image start 3 u p in
        let begun : Bool × Updater F =
          if page0_is_trampoline hw image start then (true, u) else x in
        let went : stage2_rewrite hw image new_crc32 page7_installed_crc32 u
            ≡ behind hw local image start new_crc32 page7_installed_crc32
                (rewrite_pages hw image 6 1 begun.0 begun.1) =
          if_false _ _ _ (ap not page7) in
        let done =
          ap (λ r. r.0) went
          ∙ if_known
              (λ (y : Bool × Updater F).
                (behind hw local image start new_crc32 page7_installed_crc32
                  (rewrite_pages hw image 6 1 y.0 y.1)).0
                ≡ stage2_ok)
              (page0_is_trampoline hw image start) (true, u) x
              (λ t. behind-ok start true u refl p t)
              (λ t. let e = ap (λ y. y.0) wrote in behind-ok start x.0 x.1 e kept (there e)) in
        let all : (k : ℕ)
            → k < 8
            → page_matches_image hw image
                (stage2_rewrite hw image new_crc32 page7_installed_crc32 u).1.flash k
              ≡ true =
          elim ends [ inl (r, all) ↦ all | inr (r, _) ↦ absurd (ground (arith, sym done ∙ r)) ] in
        (done, all, order.application)
