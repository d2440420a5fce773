-- ===== src/Bus/Wired/Waits.antt =====
-- `twibootWaitReady` and `twibootAwaitBootloader` on a unit whose bootloader waits for its master.
use split_flap.Common.{
  ℕ, zero, suc, ◌+◌, ◌-◌, ◌<◌, ◌≤◌, ◌≡◌, refl, ap, ◌∙◌, true, false, ◌==◌, ltb, leb, if◌then◌else◌,
  if_true, if_false, inl, inr, Bool-cases, sub32, u32, arith,
}
use split_flap.Boot.Hardware.{Hardware}
use split_flap.Boot.State.{Image, wait}
use split_flap.Bus.Twiboot.{
  wait_command, ping, poll_until, wait_ready, await_bootloader_in, await_bootloader,
}
use split_flap.Bus.Wired.{World, Setting, elapse, wired}
use split_flap.Bus.Wired.Timer.{IsUp, IsPaced, IsUp-le, elapse-IsUp}
use split_flap.Bus.Wired.Frames.{ping-Took}
use split_flap.Bus.Wired.Calls.{transmit-Heard, transmit_busy}

-- A unit that is up and free.
pub record IsReady {F E : Type 0} (image : Image) (set : Setting) (f : F) (w : World F E)
    : Type 0 where
  pub up : IsUp image set 1600 f w
  pub free : w.free_at ≤ w.clock

module _ {F E : Type 0} (hw : Hardware F E) (image : Image) (set : Setting) (addr : ℕ)
    (paced : IsPaced set) where
  ping_free :
      (slack : ℕ) (f : F) (w : World F E)
      → IsUp image set (set.cost + slack) f w
      → w.free_at ≤ w.clock + set.cost
      → let r = ping (wired hw image set addr) addr w in (r.0 ≡ 0) × IsReady image set f r.1
  unfolding ping
  ping_free slack f w up free =
      let h =
        transmit-Heard hw image set addr paced wait_command true wait (λ b. Unit {0}) slack f w refl
          refl (λ b idled u. (ping-Took hw slack f b image u, tt)) up free in
      (h.status, record { up = h.up; free = h.free })

  ping_busy :
      (slack : ℕ) (f : F) (w : World F E)
      → IsUp image set (set.cost + slack) f w
      → w.clock + set.cost < w.free_at
      → let r = ping (wired hw image set addr) addr w in
        (r.0 ≡ 2)
        × IsUp image set slack f r.1
        × (r.1.clock ≡ w.clock + set.cost)
        × (r.1.free_at ≡ w.free_at)
  unfolding ping
  ping_busy slack f w up busy =
      transmit_busy hw image set addr paced wait_command true slack f w up busy

  -- The unit's page write that the clock has still before it.
  abbrev left : World F E → ℕ
  left w = w.free_at - w.clock

  early :
      (now deadline : ℕ)
      → now < deadline
      → deadline ≤ now + 65536
      → ltb (sub32 (u32 now) (u32 deadline)) 2147483648 ≡ false
  early now deadline h l = ground arith

  poll_until-IsReady :
      (fuel deadline : ℕ) (f : F) (w : World F E)
      → left w < fuel
      → w.clock + left w < deadline
      → deadline ≤ w.clock + 65536
      → IsUp image set (set.cost + left w) f w
      → let r = poll_until (wired hw image set addr) addr fuel (u32 deadline) w in
        (r.0 ≡ true) × IsReady image set f r.1
  unfolding poll_until
  poll_until-IsReady zero deadline f w l h d up = absurd (omega arith)
  poll_until-IsReady (suc fuel) deadline f w l h d up =
      let bus = wired hw image set addr in
      let p = ping bus addr w in
      let next = poll_until bus addr fuel (u32 deadline) (elapse image set 1 p.1) in
      let before : poll_until bus addr (suc fuel) (u32 deadline) w
          ≡ (if p.0 == 0 then (true, p.1) else next) =
        if_false _ _ _ (early w.clock deadline (omega arith) d) in
      elim (Bool-cases (leb w.free_at (w.clock + set.cost))) [
        | inl e ↦
            let (s, r) = ping_free (left w) f w up (ground (arith, e)) in
            let found : poll_until bus addr (suc fuel) (u32 deadline) w
                ≡ (true, (ping bus addr w).1) =
              before ∙ if_true _ _ _ (ap (λ n. n == 0) s) in
            rw found (refl, r)
        | inr e ↦
            let v = (ping bus addr w).1 in
            let (s, v_up, clock, at) = ping_busy (left w) f w up (ground (arith, e)) in
            let (u_up, idled, clock', at', target, queued) =
              elapse-IsUp image set paced 1 (left w - 1) f v
                (IsUp-le image set (1 + (left w - 1)) (left w) f v (ground (arith, e)) v_up) in
            let u = elapse image set 1 v in
            let again : poll_until bus addr (suc fuel) (u32 deadline) w
                ≡ poll_until bus addr fuel (u32 deadline) u =
              before ∙ if_false _ _ _ (ap (λ n. n == 0) s) in
            rw again (
              poll_until-IsReady fuel deadline f u (ground (arith, e, clock, at, clock', at'))
                (ground (arith, e, clock, at, clock', at')) (omega (arith, d, clock, clock'))
                (IsUp-le image set (set.cost + left u) (left w - 1) f u
                  (ground (arith, e, clock, at, clock', at')) u_up))
      ]

  -- A unit that is up is found ready in the time that a page write takes, and ACKs.
  pub wait_ready-IsReady :
      (timeout slack : ℕ) (f : F) (w : World F E)
      → set.busy < timeout
      → timeout < 65536
      → set.cost + set.busy ≤ slack
      → IsUp image set slack f w
      → let r = wait_ready (wired hw image set addr) addr timeout w in
        (r.0 ≡ true) × IsReady image set f r.1
  unfolding wait_ready
  wait_ready-IsReady timeout slack f w b t c up =
      let e : u32 (u32 w.clock + timeout) ≡ u32 (w.clock + timeout) = omega arith in
      rw e (
        poll_until-IsReady (suc timeout) (w.clock + timeout) f w (omega (arith, up.free_soon))
          (omega (arith, up.free_soon)) (omega arith)
          (IsUp-le image set (set.cost + left w) slack f w (omega (arith, up.free_soon)) up))

  -- A free unit answers the first ping of `twibootAwaitBootloader`.
  pub await_bootloader-IsReady :
      (f : F) (w : World F E)
      → IsUp image set set.cost f w
      → w.free_at ≤ w.clock
      → let r = await_bootloader (wired hw image set addr) addr w in
        (r.0 ≡ true) × IsReady image set f r.1
  unfolding await_bootloader await_bootloader_in
  await_bootloader-IsReady f w up free =
      let bus = wired hw image set addr in
      let (s, r) =
        ping_free 0 f w (IsUp-le image set (set.cost + 0) set.cost f w (omega arith) up)
          (omega arith) in
      let found : await_bootloader bus addr w ≡ (true, (ping bus addr w).1) =
        if_true _ _ _ (ap (λ n. n == 0) s) in
      rw found (refl, r)
