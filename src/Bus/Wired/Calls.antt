-- ===== src/Bus/Wired/Calls.antt =====
-- The calls of the bus adapter on a unit whose bootloader waits for its master.
use split_flap.Common.{
  ℕ, ◌+◌, ◌<◌, ◌≤◌, ◌≡◌, refl, ap, ◌∙◌, List, Bool, true, false, not, ◌&&◌, ◌==◌, ltb,
  if◌then◌else◌, if_true, if_false, arith,
}
use split_flap.Boot.Hardware.{Hardware}
use split_flap.Boot.State.{Image, Cmd, Boot}
use split_flap.Boot.Loop.{left_loop}
use split_flap.Boot.Twi.{slave_read, serve}
use split_flap.Boot.Twi.ReadBack.{put_out}
use split_flap.Bus.Adapter.{transmit}
use split_flap.Bus.Wired.{World, Setting, is_writing, reads, elapse, answers, frame, take_in, wired}
use split_flap.Bus.Wired.Timer.{Idled, IsWaiting, IsUp, IsPaced, elapse-IsUp}
use split_flap.Bus.Wired.Frames.{framed, Took}

module _ {F E : Type 0} (hw : Hardware F E) (image : Image) (set : Setting) (addr : ℕ)
    (paced : IsPaced set) where
  -- A frame for the unit while it is free.
  pub frame_free :
      (w : World F E)
      → w.started ≡ false
      → w.target ≡ addr
      → w.free_at ≤ w.clock
      → w.boot.acking ≡ true
      → let r = framed hw image w.queued w.boot in
        frame hw image set addr w ≡ (
          r.0,
          record w {
            boot = r.1;
            started = left_loop r.1.cmd;
            free_at = if is_writing r.1.cmd then w.clock + set.busy else w.free_at;
          },
        )
  unfolding frame answers
  frame_free w l t f a =
      let here : (w.target == addr && not (ltb w.clock w.free_at) && w.boot.acking) ≡ true =
        ground (arith, t, f, a) in
      if_false _ _ _ l ∙ if_true _ _ _ here

  frame_busy :
      (w : World F E) → w.started ≡ false → w.clock < w.free_at → frame hw image set addr w ≡ (2, w)
  unfolding frame answers
  frame_busy w l f =
      let away : (w.target == addr && not (ltb w.clock w.free_at) && w.boot.acking) ≡ false =
        ground (arith, f) in
      if_false _ _ _ l ∙ if_false _ _ _ away

  pub take_in_free :
      (qty : ℕ) (w : World F E)
      → w.started ≡ false
      → w.target ≡ addr
      → w.free_at ≤ w.clock
      → w.boot.acking ≡ true
      → take_in hw image set addr qty w ≡ (
        put_out hw image slave_read qty w.boot,
        record w { boot = serve hw image (reads qty) w.boot },
      )
  unfolding take_in answers
  take_in_free qty w l t f a =
      let here : (w.target == addr && not (ltb w.clock w.free_at) && w.boot.acking) ≡ true =
        ground (arith, t, f, a) in
      if_false _ _ _ l ∙ if_true _ _ _ here

  -- The unit when the frame reaches it.
  abbrev pub reached : List ℕ → World F E → World F E
  reached bytes w = elapse image set set.cost (record w { target = addr; queued = bytes })

  pub reached-IsUp :
      (bytes : List ℕ) (slack : ℕ) (f : F) (w : World F E)
      → IsUp image set (set.cost + slack) f w
      → let v = reached bytes w in
        IsUp image set slack f v
        × Idled w.boot v.boot
        × (v.clock ≡ w.clock + set.cost)
        × (v.free_at ≡ w.free_at)
        × (v.target ≡ addr)
        × (v.queued ≡ bytes)
  reached-IsUp bytes slack f w up =
      elapse-IsUp image set paced set.cost slack f (record w { target = addr; queued = bytes })
        (record { live = up.live; waiting = up.waiting; free_soon = up.free_soon })

  -- A unit that took a frame: it is up and free, and what it was told holds of it.
  pub record Heard (Told : Boot F E → Type 0) (f : F) (now : ℕ) (r : ℕ × World F E) : Type 0 where
    pub status : r.0 ≡ 0
    pub up : IsUp image set 1600 f r.1
    pub told : Told r.1.boot
    pub free : r.1.free_at ≤ r.1.clock
    pub later : r.1.clock ≡ now + set.cost

  pub transmit-Heard :
      (bytes : List ℕ) (stop : Bool) (c : Cmd) (Told : Boot F E → Type 0) (slack : ℕ) (f : F)
      (w : World F E)
      → left_loop c ≡ false
      → is_writing c ≡ false
      → ((b : Boot F E)
          → Idled w.boot b
          → IsWaiting image slack f b
          → Took hw image c f (framed hw image bytes b) × Told (framed hw image bytes b).1)
      → IsUp image set (set.cost + slack) f w
      → w.free_at ≤ w.clock + set.cost
      → Heard Told f w.clock (transmit (wired hw image set addr) addr bytes stop w)
  unfolding transmit
  transmit-Heard bytes stop c Told slack f w l n took up free =
      let v = reached bytes w in
      let (up', idled, clock, at, target, queued) = reached-IsUp bytes slack f w up in
      let (k, told) : Took hw image c f (framed hw image v.queued v.boot)
          × Told (framed hw image v.queued v.boot).1 =
        rw queued (took v.boot idled up'.waiting) in
      let e = frame_free v up'.live target (omega (arith, clock, at, free)) up'.waiting.acks in
      let quiet =
        if_false (is_writing (framed hw image v.queued v.boot).1.cmd) (v.clock + set.busy) v.free_at
          (ap is_writing k.cmd ∙ n) in
      rw e (record {
        status = k.status;
        up = record {
          live = ap left_loop k.cmd ∙ l;
          waiting = k.unit;
          free_soon = omega (arith, quiet, clock, at, free);
        };
        told = told;
        free = omega (arith, quiet, clock, at, free);
        later = clock;
      })

  -- A frame for a unit that writes a page.
  pub transmit_busy :
      (bytes : List ℕ) (stop : Bool) (slack : ℕ) (f : F) (w : World F E)
      → IsUp image set (set.cost + slack) f w
      → w.clock + set.cost < w.free_at
      → let r = transmit (wired hw image set addr) addr bytes stop w in
        (r.0 ≡ 2)
        × IsUp image set slack f r.1
        × (r.1.clock ≡ w.clock + set.cost)
        × (r.1.free_at ≡ w.free_at)
  unfolding transmit
  transmit_busy bytes stop slack f w up busy =
      let (up', idled, clock, at, target, queued) = reached-IsUp bytes slack f w up in
      rw (frame_busy (reached bytes w) up'.live (omega (arith, clock, at))) (refl, up', clock, at)
