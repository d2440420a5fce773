-- ===== src/Bus/Twiboot/Ready.antt =====
-- firmware/v2/shared/TwibootFlash.h: `twibootWaitReady` comes to an end.
use split_flap.Common.{
  ℕ, zero, suc, ◌+◌, ◌<◌, ◌≤◌, ◌≡◌, refl, sym, ap, ◌∙◌, inl, inr, List, Bool, true, false, ◌==◌,
  ltb, if◌then◌else◌, if_known, Bool-cases, sub32, u32, arith,
}
use split_flap.Bus.Adapter.{Bus, transmit}
use split_flap.Bus.Twiboot.{wait_command, ping, poll_until, wait_ready}

-- The clock of the adapter: `time` is what the milliseconds would be without their wrap at 2 ^ 32.
-- A sleep takes at least its time, nothing takes it back, and none of the calls of a poll takes as
-- long as 2 ^ 28 ms.
pub record IsClocked {W : Type 0} (bus : Bus W) : Type 0 where
  pub time : W → ℕ
  pub reads : (w : W) → (bus.now_ms w).0 ≡ u32 (time w)
  pub read_on :
      (w : W) → time w ≤ time (bus.now_ms w).1 × (time (bus.now_ms w).1 < time w + 268435456)
  pub queue_on :
      (a : ℕ) (bytes : List ℕ) (w : W)
      → time w ≤ time (bus.queue a bytes w).1 × (time (bus.queue a bytes w).1 < time w + 268435456)
  pub end_on :
      (s : Bool) (w : W)
      → time w ≤ time (bus.end_transmission s w).1
        × (time (bus.end_transmission s w).1 < time w + 268435456)
  pub slept :
      (ms : ℕ) (w : W)
      → time w + ms ≤ time (bus.sleep_ms ms w)
        × (time (bus.sleep_ms ms w) < time w + ms + 268435456)

module _ {W : Type 0} (bus : Bus W) (clock : IsClocked bus) (addr : ℕ) where
  -- The state that the next round of the loop finds.
  abbrev next_round : W → W
  next_round w = bus.sleep_ms 1 (ping bus addr (bus.now_ms w).1).1

  next_round-time :
      (w : W)
      → clock.time w + 1 ≤ clock.time (next_round w)
        × (clock.time (next_round w) < clock.time w + 1073741824)
  unfolding ping transmit
  next_round-time w =
      let w1 = (bus.now_ms w).1 in
      let q = bus.queue addr wait_command w1 in
      let e = bus.end_transmission true q.1 in
      let (a, a') = clock.read_on w in
      let (b, b') = clock.queue_on addr wait_command w1 in
      let (c, c') = clock.end_on true q.1 in
      let (d, d') = clock.slept 1 e.1 in (omega (arith, a, b, c, d), omega (arith, a', b', c', d'))

  -- The loop's test, on the clock without its wrap.
  expired_iff :
      (now deadline : ℕ)
      → now ≤ deadline + 1073741824
      → deadline ≤ now + 65536
      → ltb (sub32 (u32 now) (u32 deadline)) 2147483648 ≡ (if ltb now deadline then false else true)
  expired_iff now deadline h l = ground arith

  abbrev expired : ℕ → W → Bool
  expired deadline w = ltb (sub32 (bus.now_ms w).0 (u32 deadline)) 2147483648

  expired_lem :
      (deadline : ℕ) (w : W)
      → clock.time w ≤ deadline + 1073741824
      → deadline ≤ clock.time w + 65536
      → expired deadline w ≡ (if ltb (clock.time w) deadline then false else true)
  expired_lem deadline w h l =
      ap (λ now. ltb (sub32 now (u32 deadline)) 2147483648) (clock.reads w)
      ∙ expired_iff (clock.time w) deadline h l

  -- Fuel for each millisecond to the deadline is enough.
  more_fuel :
      (fuel more deadline : ℕ) (w : W)
      → fuel < more
      → deadline ≤ clock.time w + fuel
      → clock.time w ≤ deadline + 1073741824
      → fuel ≤ 65536
      → poll_until bus addr more (u32 deadline) w ≡ poll_until bus addr (suc fuel) (u32 deadline) w
  unfolding poll_until
  more_fuel fuel zero deadline w m d l f = absurd (omega arith)
  more_fuel zero (suc more) deadline w m d l f =
      let e : expired deadline w ≡ true = ground (arith, expired_lem deadline w l (omega arith)) in
      rw e refl
  more_fuel (suc fuel) (suc more) deadline w m d l f =
      let t = next_round-time w in
      elim (Bool-cases (expired deadline w)) [
        | inl e ↦ rw e refl
        | inr e ↦
            let early : clock.time w < deadline =
              ground (arith, e, expired_lem deadline w l (omega arith)) in
            ap
              (λ (r : Bool × W).
                if expired deadline w
                then (false, (bus.now_ms w).1)
                else if (ping bus addr (bus.now_ms w).1).0 == 0
                then (true, (ping bus addr (bus.now_ms w).1).1)
                else r)
              (more_fuel fuel more deadline (next_round w) (omega arith) (omega (arith, t.0))
                (omega (arith, t.1)) (omega arith))
      ]

  -- With a clock of the adapter, `twibootWaitReady` is the same with any more fuel, for a timeout
  -- that a uint16_t holds.
  pub wait_ready-terminates :
      (timeout more : ℕ) (w : W)
      → timeout < 65536
      → timeout < more
      → wait_ready bus addr timeout w
        ≡ poll_until bus addr more (u32 ((bus.now_ms w).0 + timeout)) (bus.now_ms w).1
  unfolding wait_ready
  wait_ready-terminates timeout more w h m =
      let (a, a') = clock.read_on w in
      let e : u32 ((bus.now_ms w).0 + timeout) ≡ u32 (clock.time w + timeout) =
        omega (arith, clock.reads w) in
      rw e (
        sym (
          more_fuel timeout more (clock.time w + timeout) (bus.now_ms w).1 m (omega (arith, a))
            (omega (arith, a')) (omega arith)))

  abbrev WaitedTill : ℕ → Bool × W → Type 0
  WaitedTill deadline (ready, w) = ready ≡ false → deadline ≤ clock.time w

  one_round :
      (fuel deadline : ℕ) (w : W)
      → deadline ≤ clock.time w + 65536
      → clock.time w ≤ deadline + 1073741824
      → (expired deadline w ≡ false
          → WaitedTill deadline (poll_until bus addr fuel (u32 deadline) (next_round w)))
      → WaitedTill deadline (poll_until bus addr (suc fuel) (u32 deadline) w)
  unfolding poll_until
  one_round fuel deadline w d l again =
      let w1 = (bus.now_ms w).1 in
      let p = ping bus addr w1 in
      let late = expired_lem deadline w l d in
      let rest = poll_until bus addr fuel (u32 deadline) (bus.sleep_ms 1 p.1) in
      let P = WaitedTill deadline in
      if_known P (expired deadline w) (false, w1) (if p.0 == 0 then (true, p.1) else rest)
        (λ e n.
          let h : deadline ≤ clock.time w = ground (arith, e, late) in
          omega (arith, h, (clock.read_on w).0))
        (λ e.
          if_known P (p.0 == 0) (true, p.1) rest (λ s n. absurd (ground (arith, n))) (λ s. again e))

  poll_until-WaitedTill :
      (fuel deadline : ℕ) (w : W)
      → deadline ≤ clock.time w + fuel
      → clock.time w ≤ deadline + 1073741824
      → fuel ≤ 65536
      → WaitedTill deadline (poll_until bus addr (suc fuel) (u32 deadline) w)
  poll_until-WaitedTill zero deadline w d l f =
      one_round zero deadline w (omega arith) l
        (λ e. absurd (ground (arith, expired_lem deadline w l (omega arith))))
  poll_until-WaitedTill (suc fuel) deadline w d l f =
      let t = next_round-time w in
      one_round (suc fuel) deadline w (omega arith) l (λ e.
        let early : clock.time w < deadline =
          ground (arith, e, expired_lem deadline w l (omega arith)) in
        poll_until-WaitedTill fuel deadline (next_round w) (omega (arith, t.0)) (omega (arith, t.1))
          (omega arith))

  -- With a clock of the adapter, `twibootWaitReady` does not give a unit up before its timeout, for
  -- a timeout that a uint16_t holds.
  pub wait_ready-waits :
      (timeout : ℕ) (w : W)
      → timeout < 65536
      → (wait_ready bus addr timeout w).0 ≡ false
      → clock.time w + timeout ≤ clock.time (wait_ready bus addr timeout w).1
  unfolding wait_ready
  wait_ready-waits timeout w h n =
      let (a, a') = clock.read_on w in
      let e : u32 ((bus.now_ms w).0 + timeout) ≡ u32 (clock.time w + timeout) =
        omega (arith, clock.reads w) in
      let deadline = clock.time w + timeout in
      let waited : WaitedTill deadline (wait_ready bus addr timeout w) = rw e (
        poll_until-WaitedTill timeout deadline (bus.now_ms w).1 (omega (arith, a))
          (omega (arith, a')) (omega arith)) in
      waited n
