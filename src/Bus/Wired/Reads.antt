-- ===== src/Bus/Wired/Reads.antt =====
-- A read of any length leaves a bootloader that waits for its master as it is.
use split_flap.Common.{
  ℕ, zero, suc, ◌≡◌, refl, ap, ◌∙◌, ◌∷◌, [], ◌++◌, Bool, true, length, replicate, arith,
}
use split_flap.Boot.Hardware.{Hardware}
use split_flap.Boot.State.{Image, fielded, lean, Cmd, wait, access_flash, access_eeprom, Boot}
use split_flap.Boot.Memory.{data_read}
use split_flap.Boot.Loop.{left_loop}
use split_flap.Boot.Twi.{sent_acked, sent_nacked, on_send, twi_vect, serve}
use split_flap.Bus.Wired.{reads}
use split_flap.Bus.Wired.Timer.{Lasts, IsWaiting}

-- What putting bytes out leaves of a bootloader.
record Sent {F E : Type 0} (s t : Boot F E) : Type 0 where
  pub cmd : t.cmd ≡ s.cmd
  pub buf : t.buf ≡ s.buf
  pub flash : t.flash ≡ s.flash
  pub timeout : t.boot_timeout ≡ s.boot_timeout
  pub prescale : t.boot_prescale ≡ s.boot_prescale
  pub installed : t.app_installed ≡ s.app_installed

module _ {F E : Type 0} where
  Sent-trans : (s t u : Boot F E) → Sent s t → Sent t u → Sent s u
  Sent-trans s t u p q = record {
    cmd = q.cmd ∙ p.cmd;
    buf = q.buf ∙ p.buf;
    flash = q.flash ∙ p.flash;
    timeout = q.timeout ∙ p.timeout;
    prescale = q.prescale ∙ p.prescale;
    installed = q.installed ∙ p.installed;
  }

  Sent-refl : (s : Boot F E) → Sent s s
  Sent-refl s = record {
    cmd = refl;
    buf = refl;
    flash = refl;
    timeout = refl;
    prescale = refl;
    installed = refl;
  }

  -- Only what a read moves differs.
  Sent-moved :
      (addr bcnt twdr : ℕ) (acking : Bool) (s : Boot F E)
      → Sent s (record s { addr = addr; bcnt = bcnt; twdr = twdr; acking = acking })
  Sent-moved addr bcnt twdr acking s = record {
    cmd = refl;
    buf = refl;
    flash = refl;
    timeout = refl;
    prescale = refl;
    installed = refl;
  }

  Sent-Lasts :
      (image : Image) (n : ℕ) (s t : Boot F E) → Sent s t → Lasts image n s → Lasts image n t
  Sent-Lasts fielded n s t p h = ground (arith, h, p.timeout, p.prescale, p.installed)
  Sent-Lasts lean n s t p h = ground (arith, h, p.timeout, p.prescale, p.installed)

  module _ (hw : Hardware F E) where
    data_read-Sent :
        (image : Image) (c : Cmd) (n : ℕ) (s : Boot F E) → Sent s (data_read hw image c n s).1
    unfolding data_read
    data_read-Sent fielded wait n s = Sent-refl s
    data_read-Sent fielded access_eeprom n s = Sent-moved _ _ _ _ s
    data_read-Sent image access_flash n s = Sent-moved _ _ _ _ s
    data_read-Sent _ _ n s = Sent-refl s

    on_send-Sent : (image : Image) (s : Boot F E) → Sent s (on_send hw image s)
    unfolding on_send
    on_send-Sent image s =
        let p = data_read-Sent image s.cmd s.bcnt s in
        record {
          cmd = p.cmd;
          buf = p.buf;
          flash = p.flash;
          timeout = p.timeout;
          prescale = p.prescale;
          installed = p.installed;
        }

    sends-Sent :
        (image : Image) (n : ℕ) (s : Boot F E)
        → let t = serve hw image (replicate n sent_acked ++ (sent_nacked ∷ [])) s in
          Sent s t × (t.acking ≡ true)
    unfolding serve twi_vect
    sends-Sent image zero s = (Sent-moved _ _ _ _ s, refl)
    sends-Sent image (suc n) s =
        let (p, a) = sends-Sent image n (on_send hw image s) in
        (Sent-trans s (on_send hw image s) _ (on_send-Sent image s) p, a)

    -- A read leaves a bootloader that waits as it is.
    pub reads-IsWaiting :
        (image : Image) (slack qty : ℕ) (f : F) (s : Boot F E)
        → IsWaiting image slack f s
        → let t = serve hw image (reads (suc qty)) s in IsWaiting image slack f t × (t.cmd ≡ s.cmd)
    unfolding serve twi_vect
    reads-IsWaiting image slack qty f s up =
        let s0 = record s { bcnt = 0 } in
        let (p, a) = sends-Sent image qty (on_send hw image s0) in
        let q = Sent-trans s0 (on_send hw image s0) _ (on_send-Sent image s0) p in
        let kept = Sent-trans s s0 _ (Sent-moved _ _ _ _ s) q in
        (
          record {
            in_loop = ap left_loop kept.cmd ∙ up.in_loop;
            acks = a;
            whole = ap length kept.buf ∙ up.whole;
            lasts = Sent-Lasts image slack s _ kept up.lasts;
            prescale = omega (arith, kept.prescale, up.prescale);
            holds = kept.flash ∙ up.holds;
          },
          kept.cmd,
        )
