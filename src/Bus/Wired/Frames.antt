-- ===== src/Bus/Wired/Frames.antt =====
-- What the frames of TwibootFlash.h do to a bootloader that waits for its master.
use split_flap.Common.{
  ℕ, ◌+◌, ◌*◌, ◌<◌, ◌≡◌, refl, ap, ◌∙◌, inl, inr, List, [], ◌∷◌, true, false, not, if_true,
  if_false, length, IsByte, arith,
}
use split_flap.Boot.Hardware.{page_size, Hardware}
use split_flap.Boot.State.{
  Image, fielded, lean, Cmd, wait, access_chipinfo, access_flash, pin_timeout, Boot,
}
use split_flap.Boot.Memory.{first_byte, second_byte, data_write}
use split_flap.Boot.Loop.{left_loop}
use split_flap.Boot.Twi.{slave_write, got_acked, stop, on_stop, write_received, twi_vect, serve}
use split_flap.Boot.Twi.Page.{got}
use split_flap.Boot.Twi.ReadBack.{page_request, requested}
use split_flap.Bus.Wired.{deliver, close}
use split_flap.Bus.Wired.Timer.{Lasts, IsWaiting}

module _ {F E : Type 0} (hw : Hardware F E) (image : Image) where
  -- Each byte finds the bootloader in its loop and ready to ACK it.
  abbrev pub Acked : List ℕ → Boot F E → Type 0
  Acked [] s = Unit {0}
  Acked (b ∷ bs) s =
      (left_loop s.cmd ≡ false) × (s.acking ≡ true) × Acked bs (twi_vect hw image (got_acked b) s)

  pub deliver-Acked :
      (bytes : List ℕ) (s : Boot F E)
      → Acked bytes s
      → deliver hw image bytes s ≡ (0, serve hw image (got bytes) s)
  unfolding deliver serve
  deliver-Acked [] s h = refl
  deliver-Acked (b ∷ bs) s (l, a, h) =
      if_false _ _ _ l ∙ if_true _ _ _ a ∙ deliver-Acked bs (twi_vect hw image (got_acked b) s) h

  -- What a whole frame leaves of a bootloader.
  abbrev pub framed : List ℕ → Boot F E → ℕ × Boot F E
  framed bytes s = close hw image (deliver hw image bytes (twi_vect hw image slave_write s))

  -- A bootloader that took a frame up to its STOP and was told `c` by it.
  pub record Took (c : Cmd) (f : F) (r : ℕ × Boot F E) : Type 0 where
    pub status : r.0 ≡ 0
    pub cmd : r.1.cmd ≡ c
    pub unit : IsWaiting image 1600 f r.1

  -- A frame that the bootloader ACKs to its end and stays in its loop for ends in its STOP.
  pub framed_lem :
      (bytes : List ℕ) (s : Boot F E)
      → Acked bytes (twi_vect hw image slave_write s)
      → let t = serve hw image (slave_write ∷ got bytes) s in
        left_loop t.cmd ≡ false → framed bytes s ≡ (0, on_stop hw image t)
  unfolding serve twi_vect close
  framed_lem bytes s h l =
      let t = serve hw image (slave_write ∷ got bytes) s in
      let d = deliver-Acked bytes (twi_vect hw image slave_write s) h in
      let k = if_true (not (left_loop t.cmd)) (twi_vect hw image stop t) t (ap not l) in
      ap (close hw image) d ∙ ap (λ u. (0, u)) k

  framed-Took :
      (bytes : List ℕ) (c : Cmd) (f : F) (s : Boot F E)
      → Acked bytes (twi_vect hw image slave_write s)
      → let t = serve hw image (slave_write ∷ got bytes) s in
        (left_loop t.cmd ≡ false)
          × ((on_stop hw image t).cmd ≡ c)
          × IsWaiting image 1600 f (on_stop hw image t)
        → Took c f (framed bytes s)
  framed-Took bytes c f s h (l, e, up) =
      rw (framed_lem bytes s h l) (record { status = refl; cmd = e; unit = up })

-- What the first byte of a command sets `boot_timeout` to.
abbrev pub armed : Image → ℕ
armed fielded = 0
armed lean = pin_timeout

-- A bootloader that a frame left with its countdown set anew.
pub rearmed :
    {F E : Type 0} (image : Image) (slack : ℕ) (f g : F) (s t : Boot F E)
    → IsWaiting image slack f s
    → left_loop t.cmd ≡ false
    → t.acking ≡ true
    → length t.buf ≡ page_size
    → t.boot_timeout ≡ armed image
    → t.boot_prescale ≡ s.boot_prescale
    → t.flash ≡ g
    → IsWaiting image 1600 g t
rearmed image slack f g s t up l a b e p h = record {
  in_loop = l;
  acks = a;
  whole = b;
  lasts = lasting image e (omega (arith, p, up.prescale));
  prescale = omega (arith, p, up.prescale);
  holds = h;
}
  where
    lasting : (i : Image) → t.boot_timeout ≡ armed i → t.boot_prescale < 256 → Lasts i 1600 t
    lasting fielded e p = inr (inl e)
    lasting lean e p = inr (inr (omega (arith, e)))

module _ {F E : Type 0} (hw : Hardware F E) (slack : ℕ) (f : F) (s : Boot F E) where
  -- A ping.
  pub ping-Took :
      (image : Image)
      → IsWaiting image slack f s
      → Took hw image wait f (framed hw image (0 ∷ []) s)
  unfolding serve twi_vect data_write first_byte on_stop write_received
  ping-Took fielded up =
      framed-Took hw fielded (0 ∷ []) wait f s (up.in_loop, up.acks, tt)
        (refl, refl, rearmed fielded slack f f s _ up refl refl up.whole refl refl up.holds)
  ping-Took lean up =
      framed-Took hw lean (0 ∷ []) wait f s (up.in_loop, up.acks, tt)
        (refl, refl, rearmed lean slack f f s _ up refl refl up.whole refl refl up.holds)

  -- The request of the chip's information.
  pub chipinfo-Took :
      (image : Image)
      → IsWaiting image slack f s
      → Took hw image access_chipinfo f (framed hw image (2 ∷ 0 ∷ 0 ∷ 0 ∷ []) s)
  unfolding serve twi_vect data_write first_byte second_byte on_stop write_received
  chipinfo-Took fielded up =
      framed-Took hw fielded (2 ∷ 0 ∷ 0 ∷ 0 ∷ []) access_chipinfo f s
        (up.in_loop, up.acks, (refl, up.acks, (refl, up.acks, (refl, up.acks, tt))))
        (refl, refl, rearmed fielded slack f f s _ up refl refl up.whole refl refl up.holds)
  chipinfo-Took lean up =
      framed-Took hw lean (2 ∷ 0 ∷ 0 ∷ 0 ∷ []) access_chipinfo f s
        (up.in_loop, up.acks, (refl, up.acks, (refl, up.acks, (refl, up.acks, tt))))
        (refl, refl, rearmed lean slack f f s _ up refl refl up.whole refl refl up.holds)

  request_lem :
      (image : Image) (hi lo : ℕ)
      → IsWaiting image slack f s
      → framed hw image (2 ∷ 1 ∷ hi ∷ lo ∷ []) s ≡ (0, serve hw image (page_request hi lo) s)
        × IsWaiting image 1600 f (serve hw image (page_request hi lo) s)
  unfolding serve twi_vect data_write first_byte second_byte on_stop write_received
  request_lem fielded hi lo up = (
    framed_lem hw fielded (2 ∷ 1 ∷ hi ∷ lo ∷ []) s
        (up.in_loop, up.acks, (refl, up.acks, (refl, up.acks, (refl, up.acks, tt)))) refl,
    rearmed fielded slack f f s _ up refl refl up.whole refl refl up.holds,
  )
  request_lem lean hi lo up = (
    framed_lem hw lean (2 ∷ 1 ∷ hi ∷ lo ∷ []) s
        (up.in_loop, up.acks, (refl, up.acks, (refl, up.acks, (refl, up.acks, tt)))) refl,
    rearmed lean slack f f s _ up refl refl up.whole refl refl up.holds,
  )

  -- The request of a place in the flash.
  pub request-Took :
      (image : Image) (hi lo : ℕ)
      → IsByte hi
      → IsByte lo
      → IsWaiting image slack f s
      → Took hw image access_flash f (framed hw image (2 ∷ 1 ∷ hi ∷ lo ∷ []) s)
        × ((framed hw image (2 ∷ 1 ∷ hi ∷ lo ∷ []) s).1.addr ≡ hi * 256 + lo)
  request-Took image hi lo h l up =
      let (e, unit) = request_lem image hi lo up in
      let r = requested hw image hi lo s h l up.whole in
      rw e (record { status = refl; cmd = r.command; unit = unit }, r.place)

  -- The order to start the sketch: the bootloader leaves its loop.
  pub exit_lem :
      (image : Image)
      → IsWaiting image slack f s
      → let r = framed hw image (1 ∷ 0x80 ∷ []) s in
        (r.0 ≡ 0) × (left_loop r.1.cmd ≡ true) × (r.1.flash ≡ f)
  unfolding close serve twi_vect data_write first_byte second_byte
  exit_lem fielded up =
      rw
        (deliver-Acked hw fielded (1 ∷ 0x80 ∷ []) (twi_vect hw fielded slave_write s)
          (up.in_loop, up.acks, (refl, up.acks, tt)))
        (refl, refl, up.holds)
  exit_lem lean up =
      rw
        (deliver-Acked hw lean (1 ∷ 0x80 ∷ []) (twi_vect hw lean slave_write s)
          (up.in_loop, up.acks, (refl, up.acks, tt)))
        (refl, refl, up.holds)
