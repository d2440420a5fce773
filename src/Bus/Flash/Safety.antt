-- ===== src/Bus/Flash/Safety.antt =====
-- firmware/v2/shared/UnitBusTwiboot.h: what a unit that is being flashed can start, at any moment
-- of it and however it ends.
use split_flap.Common.{
  ℕ, zero, suc, ◌+◌, ◌*◌, ◌/◌, ◌<◌, ◌≤◌, ◌≡◌, refl, ◌∙◌, ◌⊎◌, inl, inr, none, some, List, [], ◌∷◌,
  true, false, length, arith, Bool-cases, ap, leb,
}
use split_flap.Bus.Adapter.{Bus}
use split_flap.Bus.Twiboot.{page_bytes, hold_page, same_bytes, boot_section_start}
use split_flap.Bus.Flash.{UnitFlashReport, Watch, flash_image}
use split_flap.Bus.Flash.Trace.{Event, is_exit, exits, Traced, traced, traced_watch, fresh}
use split_flap.Bus.Flash.Session.{
  Phase, at, left, Session, opened, polled, asked, answered, burst, confirmed, exited, woken,
  restarted, Open,
}
use split_flap.Bus.Flash.Session.Runs.{was_started, Ended, flash_image-Ended}
use split_flap.Bus.Flash.Session.Contents.{last_burst, Holds, Session-Holds, first_written}

-- A log as it was at some moment of a longer one.
abbrev pub Earlier : List Event → List Event → Type 0
Earlier l [] = l ≡ []
Earlier l (e ∷ log) = (l ≡ e ∷ log) ⊎ Earlier l log

pub Earlier-refl : (l : List Event) → Earlier l l
Earlier-refl [] = refl
Earlier-refl (e ∷ l) = inl refl

-- Page 0 was not touched, or holds the unit in its bootloader, or every other page is the image's.
abbrev pub IsSafe : ℕ → (ℕ → List ℕ) → ℕ → List Event → Type 0
IsSafe addr pages page_count l =
    (last_burst addr 0 l ≡ none)
    ⊎ (last_burst addr 0 l ≡ some hold_page)
    ⊎ ((k : ℕ) → 0 < k → k < page_count → last_burst addr (k * 128) l ≡ some (pages k))

module _ (addr : ℕ) (pages : ℕ → List ℕ) (page_count : ℕ) where
  abbrev exits_of : Phase → ℕ
  exits_of (at n written) = 0
  exits_of left = 1

  Session-exits :
      {p : Phase} {l : List Event} → Session addr pages page_count p l → exits l ≡ exits_of p
  unfolding exits is_exit same_bytes
  Session-exits opened = refl
  Session-exits (polled status s) = Session-exits s
  Session-exits (asked kind hi lo status s) = Session-exits s
  Session-exits (answered command bytes s) = Session-exits s
  Session-exits (burst n written status h s) = Session-exits s
  Session-exits (confirmed n status s) = Session-exits s
  Session-exits (exited status s) = ap (λ n. n + 1) (Session-exits s)
  Session-exits (woken status s) = Session-exits s
  Session-exits (restarted status s) = Session-exits s

  back :
      (p : Phase) {l log : List Event}
      → l ≡ log
      → Session addr pages page_count p log
      → (q : Phase) × Session addr pages page_count q l
  back p e s = (p, rw e s)

  -- Each moment of a session is one.
  earlier_session :
      {p : Phase} {log : List Event} (l : List Event)
      → Session addr pages page_count p log
      → Earlier l log
      → (q : Phase) × Session addr pages page_count q l
  earlier_session l opened e = back _ e opened
  earlier_session l (polled status s) (inl e) = back _ e (polled status s)
  earlier_session l (polled status s) (inr r) = earlier_session l s r
  earlier_session l (asked kind hi lo status s) (inl e) = back _ e (asked kind hi lo status s)
  earlier_session l (asked kind hi lo status s) (inr r) = earlier_session l s r
  earlier_session l (answered command bytes s) (inl e) = back _ e (answered command bytes s)
  earlier_session l (answered command bytes s) (inr r) = earlier_session l s r
  earlier_session l (burst n written status h s) (inl e) = back _ e (burst n written status h s)
  earlier_session l (burst n written status h s) (inr r) = earlier_session l s r
  earlier_session l (confirmed n status s) (inl e) = back _ e (confirmed n status s)
  earlier_session l (confirmed n status s) (inr (inl e)) = back _ e (asked 1 _ _ status s)
  earlier_session l (confirmed n status s) (inr (inr r)) = earlier_session l s r
  earlier_session l (exited status s) (inl e) = back _ e (exited status s)
  earlier_session l (exited status s) (inr r) = earlier_session l s r
  earlier_session l (woken status s) (inl e) = back _ e (woken status s)
  earlier_session l (woken status s) (inr r) = earlier_session l s r
  earlier_session l (restarted status s) (inl e) = back _ e (restarted status s)
  earlier_session l (restarted status s) (inr r) = earlier_session l s r

module _ (addr : ℕ) (pages : ℕ → List ℕ) (page_count : ℕ)
    (whole : (k : ℕ) → length (pages k) ≡ page_bytes) (fits : page_count ≤ 248) where
  Holds-IsSafe :
      (p : Phase) (l : List Event)
      → Holds addr pages page_count whole fits p l
      → IsSafe addr pages page_count l
  unfolding Holds
  Holds-IsSafe left l h = inr (inr (λ k z c. h k c))
  Holds-IsSafe (at zero true) l h = inr (inl (first_written addr pages page_count whole fits l h))
  Holds-IsSafe (at zero false) l h = inl (h.untouched refl refl)
  Holds-IsSafe (at (suc n) written) l h = elim (Bool-cases (leb page_count (suc n))) [
    | inl e ↦ inr (inr (λ k z c. h.body k z (ground arith) c))
    | inr e ↦ inr (inl (h.front (omega arith) (ground arith) (λ f. absurd (ground arith))))
  ]

  Session-IsSafe :
      (p : Phase) (log l : List Event)
      → Session addr pages page_count p log
      → Earlier l log
      → IsSafe addr pages page_count l
  Session-IsSafe p log l s e =
      let (q, s') = earlier_session addr pages page_count l s e in
      Holds-IsSafe q l (Session-Holds addr pages page_count whole fits s')

-- The log of a whole run.
abbrev pub run :
    {W : Type 0} → Bus W → Watch W → ℕ → (ℕ → List ℕ) → ℕ → W → UnitFlashReport × Traced W
run bus watch addr pages image_len w =
    flash_image (traced bus) (traced_watch watch) addr pages image_len (fresh w)

module _ {W : Type 0} (bus : Bus W) (watch : Watch W) (addr : ℕ) (pages : ℕ → List ℕ) where
  Ended-Session :
      (page_count : ℕ) (r : UnitFlashReport × Traced W)
      → Ended bus watch addr pages page_count r
      → (p : Phase) × ((was_started r.0.result ≡ true → p ≡ left)
          × (was_started r.0.result ≡ false → exits_of addr pages page_count p ≡ 0))
        × Session addr pages page_count p r.1.log
  unfolding Ended
  Ended-Session page_count (r, t) ended = elim (Bool-cases (was_started r.result)) [
    | inl e ↦ (left, (λ f. refl, λ f. absurd (ground arith)), rw e at ended)
    | inr e ↦
        let (m, (written, s)) : (m : ℕ) × Open bus addr pages page_count m t.log = rw e at ended in
        (at m written, (λ f. absurd (ground arith), λ f. refl), s)
  ]

  -- Whatever the bus answers and however the flash ends, at every moment of it page 0 of the unit
  -- was not written, or was written last with the hold page, or every other page was written last
  -- with the image's bytes, for pages of 128 bytes and an image that ends below the bootloader.
  pub flash_image-IsSafe :
      (image_len : ℕ) (w : W) (l : List Event)
      → ((k : ℕ) → length (pages k) ≡ page_bytes)
      → image_len ≤ boot_section_start
      → Earlier l (run bus watch addr pages image_len w).1.log
      → IsSafe addr pages (image_len / page_bytes) l
  flash_image-IsSafe image_len w l whole fits e =
      let count = image_len / page_bytes in
      let (p, m, s) =
        Ended-Session count (run bus watch addr pages image_len w)
          (flash_image-Ended bus watch addr pages image_len w) in
      Session-IsSafe addr pages count whole (omega arith) p _ l s e

  -- Whatever the bus answers: a flash that ends in `Ok`, `ExitFailed` or `PostBootSilent` told the
  -- bootloader to start the sketch once, with every page of the image written last with the image's
  -- bytes, and a flash with any other result never told it to, for pages of 128 bytes and an image
  -- that ends below the bootloader.
  pub flash_image-exits :
      (image_len : ℕ) (w : W)
      → ((k : ℕ) → length (pages k) ≡ page_bytes)
      → image_len ≤ boot_section_start
      → let (r, t) = run bus watch addr pages image_len w in
        (was_started r.result ≡ true
          → (exits t.log ≡ 1)
            × ((k : ℕ)
                → k < image_len / page_bytes
                → last_burst addr (k * 128) t.log ≡ some (pages k)))
        × (was_started r.result ≡ false → exits t.log ≡ 0)
  unfolding Holds
  flash_image-exits image_len w whole fits =
      let count = image_len / page_bytes in
      let r = run bus watch addr pages image_len w in
      let (p, (started, stayed), s) =
        Ended-Session count r (flash_image-Ended bus watch addr pages image_len w) in
      let n = Session-exits addr pages count s in
      (
        λ e.
            let s' = rw (started e) at s in
            (
              Session-exits addr pages count s',
              Session-Holds addr pages count whole (omega arith) s',
            ),
        λ e. n ∙ stayed e,
      )
