-- ===== src/Bus/Wired/Started.antt =====
-- A unit that has left its bootloader keeps its flash, whatever the sketch answers.
use split_flap.Common.{
  ℕ, zero, suc, ◌≡◌, ap, ◌∙◌, List, [], Bool, true, ◌==◌, if◌then◌else◌, if_true, if_both, arith,
}
use split_flap.Boot.Hardware.{Hardware}
use split_flap.Boot.State.{Image, Boot}
use split_flap.Bus.Adapter.{transmit, transmit_counted}
use split_flap.Bus.Sketch.{send_guarded, reboot_sketch}
use split_flap.Bus.Twiboot.{await_sketch_in, await_sketch}
use split_flap.Bus.Wired.{World, Setting, elapse, frame, wired}

-- The sketch has the unit, whose bootloader left the flash `f`.
pub record IsStarted {F E : Type 0} (f : F) (w : World F E) : Type 0 where
  pub started : w.started ≡ true
  pub flash : w.boot.flash ≡ f

module _ {F E : Type 0} (hw : Hardware F E) (image : Image) (set : Setting) (addr : ℕ) where
  elapse-IsStarted :
      (ms : ℕ) (f : F) (w : World F E) → IsStarted f w → IsStarted f (elapse image set ms w)
  unfolding elapse
  elapse-IsStarted ms f w up = record {
    started = ground (arith, up.started);
    flash = ap (λ (b : Boot F E). b.flash) (if_true w.started w.boot _ up.started) ∙ up.flash;
  }

  frame-IsStarted :
      (f : F) (w : World F E) → IsStarted f w → IsStarted f (frame hw image set addr w).1
  unfolding frame
  frame-IsStarted f w up =
      let e : frame hw image set addr w
          ≡ ((if w.target == addr then set.sketch_status w.clock w.queued else 2), w) =
        if_true _ _ _ up.started in
      rw e up

  transmit-IsStarted :
      (bytes : List ℕ) (stop : Bool) (f : F) (w : World F E)
      → IsStarted f w
      → IsStarted f (transmit (wired hw image set addr) addr bytes stop w).1
  unfolding transmit
  transmit-IsStarted bytes stop f w up = frame-IsStarted f _ (
      elapse-IsStarted set.cost f (record w { target = addr; queued = bytes })
        (record { started = up.started; flash = up.flash }))

  await_sketch_in-IsStarted :
      (n : ℕ) (f : F) (w : World F E)
      → IsStarted f w
      → IsStarted f (await_sketch_in (wired hw image set addr) addr n w).1
  unfolding await_sketch_in
  await_sketch_in-IsStarted zero f w up = up
  await_sketch_in-IsStarted (suc n) f w up =
      let bus = wired hw image set addr in
      let r = transmit bus addr [] true (elapse image set 500 w) in
      let next = transmit-IsStarted [] true f _ (elapse-IsStarted 500 f w up) in
      if_both (λ (x : Bool × World F E). IsStarted f x.1) (r.0 == 0) (true, r.1)
        (await_sketch_in bus addr n r.1) next (await_sketch_in-IsStarted n f r.1 next)

  pub await_sketch-IsStarted :
      (f : F) (w : World F E)
      → IsStarted f w
      → IsStarted f (await_sketch (wired hw image set addr) addr w).1
  unfolding await_sketch
  await_sketch-IsStarted f w up = await_sketch_in-IsStarted 5 f w up

  pub reboot_sketch-IsStarted :
      (f : F) (w : World F E)
      → IsStarted f w
      → IsStarted f (reboot_sketch (wired hw image set addr) addr w).1
  unfolding reboot_sketch send_guarded transmit_counted
  reboot_sketch-IsStarted f w up = frame-IsStarted f _ (
      elapse-IsStarted set.cost f (record w { target = addr; queued = _ })
        (record { started = up.started; flash = up.flash }))
