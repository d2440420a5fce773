-- ===== src/Bus/Wired/Burst.antt =====
-- What the burst of a page does to a bootloader that waits for its master: it ACKs all of it, holds
-- the page afterwards, and waits again.
use split_flap.Common.{
  ℕ, ◌+◌, ◌*◌, ◌<◌, ◌≤◌, ◌≡◌, refl, sym, ap, ◌∙◌, List, [], ◌∷◌, true, ◌&&◌, length, IsByte, arith,
}
use split_flap.Boot.Hardware.{page_size, Hardware, IsSpm}
use split_flap.Boot.State.{Image, fielded, lean, access_flash, write_flash_page, Boot}
use split_flap.Boot.Memory.{program_page, first_byte, second_byte, later_byte, store, data_write}
use split_flap.Boot.Loop.{left_loop}
use split_flap.Boot.Twi.{slave_write, got_acked, stop, on_stop, write_received, twi_vect, serve}
use split_flap.Boot.Twi.Page.{
  got, page_transfer, Filling, opened, stored, one_byte, some_bytes, serve-append,
}
use split_flap.Boot.Twi.ReadBack.{page_transfer-buf}
use split_flap.Bus.Wired.Timer.{IsWaiting}
use split_flap.Bus.Wired.Frames.{Acked, framed, framed_lem, armed, rearmed}

module _ {F E : Type 0} (hw : Hardware F E) (image : Image) where
  -- The countdown, and the ACK for the next byte, behind a byte of a page.
  one_byte-acks :
      (page k byte : ℕ) (f : F) (s : Boot F E)
      → k < page_size
      → Filling hw image page k f s
      → s.acking ≡ true
      → let t = twi_vect hw image (got_acked byte) s in
        (k + 1 < page_size → t.acking ≡ true)
        × (t.boot_timeout ≡ s.boot_timeout)
        × (t.boot_prescale ≡ s.boot_prescale)
  unfolding twi_vect later_byte store
  one_byte-acks page k byte f s h p a =
      let e = stored hw image page k byte f s h p in
      (
        λ l. ap (λ r. r.0 && s.acking) e ∙ ground (arith, a),
        ap (λ r. r.1.boot_timeout) e ∙ ground arith,
        ap (λ r. r.1.boot_prescale) e ∙ ground arith,
      )

  -- All bytes of a page are ACKed.
  burst_bytes :
      (bytes : List ℕ) (page k : ℕ) (f : F) (s : Boot F E)
      → k + length bytes ≤ page_size
      → Filling hw image page k f s
      → (k < page_size → s.acking ≡ true)
      → let t = serve hw image (got bytes) s in
        Acked hw image bytes s
        × (t.boot_timeout ≡ s.boot_timeout)
        × (t.boot_prescale ≡ s.boot_prescale)
  unfolding serve
  burst_bytes [] page k f s h p a = (tt, refl, refl)
  burst_bytes (b ∷ bytes) page k f s h p a =
      let c : s.cmd ≡ access_flash = ground (arith, p.command) in
      let (a', m, n) = one_byte-acks page k b f s (omega arith) p (a (omega arith)) in
      let (q, _) = one_byte hw image page k b f s (omega arith) p in
      let (acked, m', n') = burst_bytes bytes page (k + 1) f _ (omega arith) q a' in
      ((ap left_loop c, a (omega arith), acked), m' ∙ m, n' ∙ n)

  -- The command in front of them, and what it does to the countdown.
  burst_opening :
      (i : Image) (hi lo slack : ℕ) (bytes : List ℕ) (f : F) (s : Boot F E)
      → IsWaiting i slack f s
      → let t = serve hw i (slave_write ∷ got (2 ∷ 1 ∷ hi ∷ lo ∷ [])) s in
        (Acked hw i bytes t → Acked hw i (2 ∷ 1 ∷ hi ∷ lo ∷ bytes) (twi_vect hw i slave_write s))
        × (t.acking ≡ true)
        × (t.boot_timeout ≡ armed i)
        × (t.boot_prescale ≡ s.boot_prescale)
  unfolding serve twi_vect data_write first_byte second_byte
  burst_opening fielded hi lo slack bytes f s up = (
    λ h. (up.in_loop, up.acks, (refl, up.acks, (refl, up.acks, (refl, up.acks, h)))),
    up.acks,
    refl,
    refl,
  )
  burst_opening lean hi lo slack bytes f s up = (
    λ h. (up.in_loop, up.acks, (refl, up.acks, (refl, up.acks, (refl, up.acks, h)))),
    up.acks,
    refl,
    refl,
  )

  -- Writing a page leaves the command and the countdown.
  program_page-keeps :
      (s : Boot F E)
      → ((program_page hw s).cmd ≡ s.cmd)
        × ((program_page hw s).boot_timeout ≡ s.boot_timeout)
        × ((program_page hw s).boot_prescale ≡ s.boot_prescale)
  unfolding program_page
  program_page-keeps s = ground arith

  on_stop-keeps :
      (s : Boot F E)
      → s.cmd ≡ write_flash_page
      → let t = on_stop hw image s in
        (t.cmd ≡ write_flash_page)
        × (t.acking ≡ true)
        × (t.boot_timeout ≡ s.boot_timeout)
        × (t.boot_prescale ≡ s.boot_prescale)
  unfolding on_stop write_received
  on_stop-keeps s c =
      let (k, m, n) = program_page-keeps s in
      let e = ap (λ c. write_received hw image c s) c in
      (
        ap (λ u. u.cmd) e ∙ k ∙ c,
        refl,
        ap (λ u. u.boot_timeout) e ∙ m,
        ap (λ u. u.boot_prescale) e ∙ n,
      )

-- A whole page is ACKed, and the bootloader waits again behind it.
module _ {F E : Type 0} (hw : Hardware F E) (spm : IsSpm hw) (image : Image) where
  pub burst_lem :
      (hi lo slack : ℕ) (bytes : List ℕ) (f : F) (s : Boot F E)
      → IsByte hi
      → IsByte lo
      → length bytes ≡ page_size
      → IsWaiting image slack f s
      → let t = serve hw image (page_transfer hi lo bytes) s in
        (framed hw image (2 ∷ 1 ∷ hi ∷ lo ∷ bytes) s ≡ (0, t))
        × (t.cmd ≡ write_flash_page)
        × IsWaiting image 1600 t.flash t
  unfolding serve twi_vect
  burst_lem hi lo slack bytes f s h l n up =
      let t0 = serve hw image (slave_write ∷ got (2 ∷ 1 ∷ hi ∷ lo ∷ [])) s in
      let t1 = serve hw image (got bytes) t0 in
      let o = opened hw image image hi lo s h l up.whole in
      let (start, acks, m, p) = burst_opening hw image image hi lo slack bytes f s up in
      let (acked, m', p') =
        burst_bytes hw image bytes (hi * 256 + lo) 0 s.flash t0 (omega arith) o (λ z. acks) in
      let (q, _, _) = some_bytes hw image bytes (hi * 256 + lo) 0 s.flash t0 (omega arith) o in
      let c : t1.cmd ≡ write_flash_page = ground (arith, q.command, n) in
      let (c', a, m'', p'') = on_stop-keeps hw image t1 c in
      let e : serve hw image (page_transfer hi lo bytes) s ≡ on_stop hw image t1 =
        serve-append hw image (got bytes) (stop ∷ []) t0 in
      let whole = page_transfer-buf hw spm image hi lo bytes s h l up.whole n in
      (
        framed_lem hw image (2 ∷ 1 ∷ hi ∷ lo ∷ bytes) s (start acked) (ap left_loop c)
            ∙ ap (λ u. (0, u)) (sym e),
        ap (λ u. u.cmd) e ∙ c',
        rearmed image slack f _ s _ up (ap (λ u. left_loop u.cmd) e ∙ ap left_loop c')
            (ap (λ u. u.acking) e ∙ a) whole (ap (λ u. u.boot_timeout) e ∙ m'' ∙ m' ∙ m)
            (ap (λ u. u.boot_prescale) e ∙ p'' ∙ p' ∙ p) refl,
      )
