-- ===== src/Bus/Wired/Replies.antt =====
-- The reads of twiboot's client from a unit whose bootloader waits for its master.
use split_flap.Common.{
  ℕ, zero, suc, ◌+◌, ◌*◌, ◌-◌, ◌/◌, ◌%◌, ◌<◌, ◌≤◌, ◌≡◌, refl, sym, ap, ◌∙◌, List, Option, some,
  false, ◌==◌, ◌!=◌, if_true, if_false, length, arith,
}
use split_flap.Boot.Hardware.{page_size, bootloader_start, Hardware}
use split_flap.Boot.State.{Image, fielded, lean, access_chipinfo, access_flash, Boot}
use split_flap.Boot.Memory.{data_read, lean_chipinfo}
use split_flap.Boot.Twi.{Event, slave_read, on_send, twi_vect, serve}
use split_flap.Boot.Twi.ReadBack.{put_out, Reading, read_from}
use split_flap.Bus.Adapter.{transmit}
use split_flap.Bus.Twiboot.{
  ok, page_bytes, flash_command, chipinfo_command, is_atmega328p, ask, check_chip, verify_chip,
  whole_reply, read_flash_page,
}
use split_flap.Bus.Wired.{World, Setting, reads, elapse, wired}
use split_flap.Bus.Wired.Timer.{Idled, IsWaiting, IsUp, IsPaced, IsUp-le, elapse-IsUp}
use split_flap.Bus.Wired.Frames.{chipinfo-Took, request-Took}
use split_flap.Bus.Wired.Reads.{reads-IsWaiting}
use split_flap.Bus.Wired.Calls.{Heard, transmit-Heard, take_in_free}
use split_flap.Bus.Wired.Waits.{IsReady}
use split_flap.Bus.Wired.Pages.{PageIs}

module _ {F E : Type 0} (hw : Hardware F E) (image : Image) (set : Setting) (addr : ℕ)
    (paced : IsPaced set) (quick : set.cost ≤ 700) where
  length-put_out : (e : Event) (n : ℕ) (s : Boot F E) → length (put_out hw image e n s) ≡ n
  unfolding put_out
  length-put_out e zero s = refl
  length-put_out e (suc n) s = ap suc (length-put_out _ n (twi_vect hw image e s))

  -- A request and a read of a free unit: the bytes that it puts out in the state that the request
  -- left, time apart.
  record Replied (Told : Boot F E → Type 0) (qty : ℕ) (f : F) (r : Option (List ℕ) × World F E)
      : Type 0 where
    pub teller : Boot F E
    pub unit : IsWaiting image (1600 - set.cost) f teller
    pub reply : r.0 ≡ some (put_out hw image slave_read qty teller)
    pub told : Told teller
    pub up : IsUp image set (1600 - set.cost) f r.1
    pub free : r.1.free_at ≤ r.1.clock

  ask-Replied :
      (command : List ℕ) (qty : ℕ) (Told : Boot F E → Type 0) (f : F) (w : World F E)
      → ((s t : Boot F E) → Idled s t → Told s → Told t)
      → Heard hw image set addr paced Told f w.clock
          (transmit (wired hw image set addr) addr command false w)
      → Replied Told (suc qty) f (ask (wired hw image set addr) addr command (suc qty) w)
  unfolding ask
  ask-Replied command qty Told f w idle heard =
      let bus = wired hw image set addr in
      let w1 = (transmit bus addr command false w).1 in
      let u = elapse image set set.cost (record w1 { target = addr }) in
      let (up, idled, clock, at, target, queued) =
        elapse-IsUp image set paced set.cost (1600 - set.cost) f (record w1 { target = addr })
          (IsUp-le image set (set.cost + (1600 - set.cost)) 1600 f (record w1 { target = addr })
            (omega arith)
            (record {
              live = heard.up.live;
              waiting = heard.up.waiting;
              free_soon = heard.up.free_soon;
            })) in
      let free : u.free_at ≤ u.clock = omega (arith, clock, at, heard.free) in
      let e =
        take_in_free hw image set addr paced (suc qty) u up.live target free up.waiting.acks in
      let (kept, c) = reads-IsWaiting hw image (1600 - set.cost) qty f u.boot up.waiting in
      let whole : ask bus addr command (suc qty) w ≡ (
        some (put_out hw image slave_read (suc qty) u.boot),
        record u { boot = serve hw image (reads (suc qty)) u.boot },
      ) =
        if_true _ _ _ (ap (λ n. n == 0) heard.status) ∙ ap (λ r. (some r.0, r.1)) e in
      rw whole (record {
        teller = u.boot;
        unit = up.waiting;
        reply = refl;
        told = idle w1.boot u.boot idled heard.told;
        up = record { live = up.live; waiting = kept; free_soon = up.free_soon };
        free = free;
      })

  chip_reply :
      (i : Image) (t : Boot F E) (w : World F E)
      → t.cmd ≡ access_chipinfo
      → check_chip (wired hw image set addr) addr (some (put_out hw i slave_read 8 t), w) ≡ (ok, w)
  unfolding put_out twi_vect on_send data_read lean_chipinfo check_chip is_atmega328p
  chip_reply fielded t w c =
      ap
        (λ c.
          check_chip (wired hw image set addr) addr
            (some (put_out hw fielded slave_read 8 (record t { cmd = c })), w))
        c
  chip_reply lean t w c =
      ap
        (λ c.
          check_chip (wired hw image set addr) addr
            (some (put_out hw lean slave_read 8 (record t { cmd = c })), w))
        c

  -- The chip is the one that the image is for.
  pub verify_chip-IsUp :
      (f : F) (w : World F E)
      → IsReady image set f w
      → let r = verify_chip (wired hw image set addr) addr w in
        (r.0 ≡ ok) × IsUp image set (1600 - set.cost) f r.1 × (r.1.free_at ≤ r.1.clock)
  unfolding verify_chip
  verify_chip-IsUp f w ready =
      let bus = wired hw image set addr in
      let slack = 1600 - set.cost in
      let r =
        ask-Replied chipinfo_command 7 (λ b. b.cmd ≡ access_chipinfo) f w (λ s t i e. i.cmd ∙ e)
          (transmit-Heard hw image set addr paced chipinfo_command false access_chipinfo
            (λ b. b.cmd ≡ access_chipinfo) slack f w refl refl
            (λ b i u. let k = chipinfo-Took hw slack f b image u in (k, k.cmd))
            (IsUp-le image set (set.cost + slack) 1600 f w (omega arith) ready.up)
            (omega (arith, ready.free))) in
      let w' = (ask bus addr chipinfo_command 8 w).1 in
      let e : verify_chip bus addr w ≡ (ok, w') =
        ap (λ o. check_chip bus addr (o, w')) r.reply ∙ chip_reply image r.teller w' r.told in
      rw e (refl, r.up, r.free)

  -- A page read from a free unit is the page of its flash.
  pub read_flash_page-IsUp :
      (page : ℕ) (f : F) (w : World F E)
      → page < bootloader_start
      → IsReady image set f w
      → let r = read_flash_page (wired hw image set addr) addr page w in
        (bytes : List ℕ) × (r.0 ≡ some bytes)
        × (length bytes ≡ page_size)
        × PageIs hw f page bytes
        × IsUp image set (1600 - set.cost) f r.1
        × (r.1.free_at ≤ r.1.clock)
  unfolding read_flash_page whole_reply
  read_flash_page-IsUp page f w low ready =
      let bus = wired hw image set addr in
      let slack = 1600 - set.cost in
      let hi = page / 256 % 256 in
      let lo = page % 256 in
      let told = λ (b : Boot F E). (b.cmd ≡ access_flash) × (b.addr ≡ hi * 256 + lo) in
      let r =
        ask-Replied (flash_command page) 127 told f w (λ s t i (c, a). (i.cmd ∙ c, i.addr ∙ a))
          (transmit-Heard hw image set addr paced (flash_command page) false access_flash told slack
            f w refl refl
            (λ b i u.
              let (k, a) = request-Took hw slack f b image hi lo (omega arith) (omega arith) u in
              (k, (k.cmd, a)))
            (IsUp-le image set (set.cost + slack) 1600 f w (omega arith) ready.up)
            (omega (arith, ready.free))) in
      let w' = (ask bus addr (flash_command page) 128 w).1 in
      let bytes = put_out hw image slave_read 128 r.teller in
      let n = length-put_out slave_read 128 r.teller in
      let place : hi * 256 + lo ≡ page = omega arith in
      let at : Reading hw image page f r.teller = record {
        command = r.told.0;
        place = r.told.1 ∙ place;
        kept = r.unit.holds;
      } in
      let e : read_flash_page bus addr page w ≡ (some bytes, w') =
        ap (λ o. whole_reply bus addr page_bytes (o, w')) r.reply
        ∙ if_false _ _ _ (ap (λ n. n != page_bytes) n) in
      rw e (
        bytes,
        refl,
        n,
        λ i l. sym (read_from hw image 128 page f r.teller (omega arith) at i l),
        r.up,
        r.free,
      )
