-- ===== src/Unit/Update/Reading.antt =====
-- BootUpdateAvr.h: what its reads of the boot section say, on a chip whose self-programming touches
-- only the page that it is given. The chip may fail to write that page.
use split_flap.Common.{
  ℕ, zero, suc, ◌+◌, ◌*◌, ◌/◌, ◌<◌, ◌≡◌, ◌≢◌, refl, ap₂, ◌∙◌, List, [], ◌∷◌, true, ◌&&◌, ◌==◌,
  ==_iff, get_or, arith,
}
use split_flap.Boot.Hardware.{page_size, Hardware, IsSpm, fill_words}
use split_flap.Unit.Update.{
  section_start, boot_at, matches_from, page_matches_image, page0_is_trampoline, program,
}

pub record IsLocal {F E : Type 0} (hw : Hardware F E) : Type 0 where
  pub fill_outside :
      (addr word : ℕ) (f : F) (a : ℕ)
      → hw.read_flash (hw.page_fill addr word f) a ≡ hw.read_flash f a
  pub erase_outside :
      (page : ℕ) (f : F) (a : ℕ)
      → a / page_size ≢ page / page_size
      → hw.read_flash (hw.page_erase page f) a ≡ hw.read_flash f a
  pub write_outside :
      (page : ℕ) (f : F) (a : ℕ)
      → a / page_size ≢ page / page_size
      → hw.read_flash (hw.page_write page f) a ≡ hw.read_flash f a
  pub enable_keeps : (f : F) (a : ℕ) → hw.read_flash (hw.rww_enable f) a ≡ hw.read_flash f a

pub IsSpm-IsLocal : {F E : Type 0} (hw : Hardware F E) → IsSpm hw → IsLocal hw
IsSpm-IsLocal hw spm = record {
  fill_outside = spm.fill_outside;
  erase_outside = spm.erase_outside;
  write_outside = spm.write_outside;
  enable_keeps = spm.enable_keeps;
}

module _ {F E : Type 0} (hw : Hardware F E) (image : List ℕ) where
  -- A page matches exactly when each of its bytes reads as the image's.
  pub matches_from-get :
      (f : F) (n off : ℕ)
      → matches_from hw image f n off ≡ true
      → (i : ℕ) → i < n
      → boot_at hw image f (off + i) ≡ get_or image (off + i) 0
  unfolding matches_from
  matches_from-get f zero off h i l = absurd (omega arith)
  matches_from-get f (suc n) off h zero l =
      let z : off + 0 ≡ off = omega arith in
      let e : (boot_at hw image f off == get_or image off 0) ≡ true = ground (arith, h) in
      rw z ((==_iff _ _).0 e)
  matches_from-get f (suc n) off h (suc i) l =
      let e : off + suc i ≡ off + 1 + i = omega arith in
      let rest : matches_from hw image f n (off + 1) ≡ true = ground (arith, h) in
      rw e (matches_from-get f n (off + 1) rest i (omega arith))

  pub matches_from-of_get :
      (f : F) (n off : ℕ)
      → ((i : ℕ) → i < n → boot_at hw image f (off + i) ≡ get_or image (off + i) 0)
      → matches_from hw image f n off ≡ true
  unfolding matches_from
  matches_from-of_get f zero off h = refl
  matches_from-of_get f (suc n) off h =
      let z : off + 0 ≡ off = omega arith in
      let first : boot_at hw image f off ≡ get_or image off 0 = rw z at (h 0 (omega arith)) in
      let rest = matches_from-of_get f n (off + 1) (λ i l.
        let e : off + 1 + i ≡ off + suc i = omega arith in rw e (h (suc i) (omega arith))) in
      ap₂ (λ a b. a && b) ((==_iff _ _).1 first) rest

module _ {F E : Type 0} (hw : Hardware F E) (local : IsLocal hw) (image : List ℕ) where
  fill_words-keeps :
      (addr : ℕ) (bytes : List ℕ) (f : F) (a : ℕ)
      → hw.read_flash (fill_words hw addr bytes f) a ≡ hw.read_flash f a
  unfolding fill_words
  fill_words-keeps addr [] f a = refl
  fill_words-keeps addr (lo ∷ []) f a = refl
  fill_words-keeps addr (lo ∷ hi ∷ rest) f a =
      fill_words-keeps (addr + 2) rest _ a ∙ local.fill_outside addr (lo + hi * 256) f a

  pub program-keeps :
      (page : ℕ) (bytes : List ℕ) (f : F) (a : ℕ)
      → a / page_size ≢ page / page_size
      → hw.read_flash (program hw image page bytes f) a ≡ hw.read_flash f a
  unfolding program
  program-keeps page bytes f a d =
      local.enable_keeps _ a
      ∙ local.write_outside page _ a d
      ∙ fill_words-keeps page bytes _ a
      ∙ local.erase_outside page f a d

  -- The pages that a write leaves alone match as before.
  pub page_matches_image-program :
      (page q : ℕ) (bytes : List ℕ) (f : F)
      → page ≢ q
      → page_matches_image hw image f q ≡ true
      → page_matches_image hw image (program hw image (section_start + page * page_size) bytes f) q
        ≡ true
  unfolding page_matches_image
  page_matches_image-program page q bytes f ne m =
      matches_from-of_get hw image _ page_size (q * page_size) (λ i l.
        program-keeps (section_start + page * page_size) bytes f _ (λ e. ne (omega (arith, e, l)))
        ∙ matches_from-get hw image f page_size (q * page_size) m i l)

  pub page0_is_trampoline-program :
      (page : ℕ) (bytes : List ℕ) (f : F)
      → page ≢ 0
      → page0_is_trampoline hw image (program hw image (section_start + page * page_size) bytes f)
        ≡ page0_is_trampoline hw image f
  unfolding page0_is_trampoline
  page0_is_trampoline-program page bytes f ne =
      let g = program hw image (section_start + page * page_size) bytes f in
      let same : (i : ℕ) → i < 4 → boot_at hw image g i ≡ boot_at hw image f i = λ i l.
        program-keeps (section_start + page * page_size) bytes f _
          (λ e. ne (omega (arith, e, l))) in
      rw (same 0 (omega arith), same 1 (omega arith), same 2 (omega arith), same 3 (omega arith))
        refl
