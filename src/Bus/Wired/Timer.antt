-- ===== src/Bus/Wired/Timer.antt =====
-- The countdown of main.c while a master keeps the bootloader busy: a unit on the wire that has been
-- spoken to stays in its main loop for at least 1600 overflows of its timer.
use split_flap.Common.{
  ℕ, zero, suc, ◌+◌, ◌*◌, ◌<◌, ◌≤◌, ◌≡◌, refl, ap, ◌∙◌, ◌⊎◌, true, false, length, arith,
}
use split_flap.Boot.Hardware.{page_size}
use split_flap.Boot.State.{Image, fielded, lean, boot_prescale_limit, Boot}
use split_flap.Boot.Startup.{count_down, timer0_ovf, ticks}
use split_flap.Boot.Loop.{left_loop}
use split_flap.Bus.Wired.{World, Setting, elapse}

-- The countdown is not armed, or `n` more overflows do not end it.
abbrev pub Lasts : {F E : Type 0} → Image → ℕ → Boot F E → Type 0
Lasts fielded n s = (s.app_installed ≡ false) ⊎ (s.boot_timeout ≡ 0) ⊎ (n < s.boot_timeout)
Lasts lean n s =
    (s.app_installed ≡ false)
    ⊎ (s.boot_timeout ≡ 0)
    ⊎ (n + s.boot_prescale < boot_prescale_limit * s.boot_timeout)

-- A state that the timer alone made of another.
pub record Idled {F E : Type 0} (s t : Boot F E) : Type 0 where
  pub cmd : t.cmd ≡ s.cmd
  pub addr : t.addr ≡ s.addr
  pub buf : t.buf ≡ s.buf
  pub acking : t.acking ≡ s.acking
  pub flash : t.flash ≡ s.flash
  pub prescale : s.boot_prescale < 256 → t.boot_prescale < 256

module _ {F E : Type 0} where
  timer0_ovf-Idled :
      (image : Image) (n : ℕ) (s : Boot F E)
      → Lasts image (suc n) s
      → Idled s (timer0_ovf image s) × Lasts image n (timer0_ovf image s)
  unfolding timer0_ovf count_down
  timer0_ovf-Idled fielded n s h = (ground (arith, h), ground (arith, h))
  timer0_ovf-Idled lean n s h = (ground (arith, h), ground (arith, h))

  Idled-trans : (s t u : Boot F E) → Idled s t → Idled t u → Idled s u
  Idled-trans s t u p q = record {
    cmd = q.cmd ∙ p.cmd;
    addr = q.addr ∙ p.addr;
    buf = q.buf ∙ p.buf;
    acking = q.acking ∙ p.acking;
    flash = q.flash ∙ p.flash;
    prescale = λ h. q.prescale (p.prescale h);
  }

  Lasts-le : (image : Image) (n m : ℕ) (s : Boot F E) → n ≤ m → Lasts image m s → Lasts image n s
  Lasts-le fielded n m s l h = ground (arith, h)
  Lasts-le lean n m s l h = ground (arith, h)

  ticks-Idled :
      (image : Image) (k n : ℕ) (s : Boot F E)
      → Lasts image (k + n) s
      → Idled s (ticks image k s) × Lasts image n (ticks image k s)
  unfolding ticks
  ticks-Idled image zero n s h = (
    record { cmd = refl; addr = refl; buf = refl; acking = refl; flash = refl; prescale = λ h. h },
    Lasts-le image n (zero + n) s (omega arith) h,
  )
  ticks-Idled image (suc k) n s h =
      let e : suc k + n ≡ suc (k + n) = omega arith in
      let (p, q) = timer0_ovf-Idled image (k + n) s (rw e at h) in
      let (p', q') = ticks-Idled image k n (timer0_ovf image s) q in
      (Idled-trans s (timer0_ovf image s) _ p p', q')

-- A bootloader that waits for its master: its flash is `f`, and it stays for `slack` ms without
-- traffic.
pub record IsWaiting {F E : Type 0} (image : Image) (slack : ℕ) (f : F) (s : Boot F E)
    : Type 0 where
  pub in_loop : left_loop s.cmd ≡ false
  pub acks : s.acking ≡ true
  pub whole : length s.buf ≡ page_size
  pub lasts : Lasts image slack s
  pub prescale : s.boot_prescale < 256
  pub holds : s.flash ≡ f

-- It has the unit, and is done with its last page write in the time that one takes.
pub record IsUp {F E : Type 0} (image : Image) (set : Setting) (slack : ℕ) (f : F) (w : World F E)
    : Type 0 where
  pub live : w.started ≡ false
  pub waiting : IsWaiting image slack f w.boot
  pub free_soon : w.free_at ≤ w.clock + set.busy

-- The timer overflows at most once a millisecond (once in 16 on the board).
abbrev pub IsPaced : Setting → Type 0
IsPaced set = (t ms : ℕ) → set.overflows t ms ≤ ms

module _ {F E : Type 0} (image : Image) (set : Setting) where
  pub IsUp-le :
      (n m : ℕ) (f : F) (w : World F E) → n ≤ m → IsUp image set m f w → IsUp image set n f w
  IsUp-le n m f w l up = record {
    live = up.live;
    waiting = record {
      in_loop = up.waiting.in_loop;
      acks = up.waiting.acks;
      whole = up.waiting.whole;
      lasts = Lasts-le image n m w.boot l up.waiting.lasts;
      prescale = up.waiting.prescale;
      holds = up.waiting.holds;
    };
    free_soon = up.free_soon;
  }

  elapse-live :
      (ms : ℕ) (w : World F E)
      → w.started ≡ false
      → let b = ticks image (set.overflows w.clock ms) w.boot in
        elapse image set ms w
        ≡ record w { clock = w.clock + ms; boot = b; started = left_loop b.cmd }
  unfolding elapse
  elapse-live ms w e = rw e refl

  -- Time leaves a unit as it is that does not run out of it.
  pub elapse-IsUp :
      IsPaced set
      → (ms slack : ℕ) (f : F) (w : World F E) → IsUp image set (ms + slack) f w
      → IsUp image set slack f (elapse image set ms w)
        × Idled w.boot (elapse image set ms w).boot
        × ((elapse image set ms w).clock ≡ w.clock + ms)
        × ((elapse image set ms w).free_at ≡ w.free_at)
        × ((elapse image set ms w).target ≡ w.target)
        × ((elapse image set ms w).queued ≡ w.queued)
  elapse-IsUp paced ms slack f w up =
      let k = set.overflows w.clock ms in
      let fewer = paced w.clock ms in
      let (idled, lasts) =
        ticks-Idled image k slack w.boot (
          Lasts-le image (k + slack) (ms + slack) w.boot (omega (arith, fewer)) up.waiting.lasts) in
      let e = elapse-live ms w up.live in
      let in_loop : left_loop (ticks image k w.boot).cmd ≡ false =
        ap left_loop idled.cmd ∙ up.waiting.in_loop in
      rw e (
        record {
          live = in_loop;
          waiting = record {
            in_loop = in_loop;
            acks = idled.acking ∙ up.waiting.acks;
            whole = ap length idled.buf ∙ up.waiting.whole;
            lasts = lasts;
            prescale = idled.prescale up.waiting.prescale;
            holds = idled.flash ∙ up.waiting.holds;
          };
          free_soon = omega (arith, up.free_soon);
        },
        idled,
        refl,
        refl,
        refl,
        refl,
      )
