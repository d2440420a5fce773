-- ===== src/Bus/Wired/Pages.antt =====
-- A page of the image on its way to a unit whose bootloader waits for its master: the burst, and the
-- page read back.
use split_flap.Common.{
  ℕ, suc, ◌+◌, ◌*◌, ◌-◌, ◌/◌, ◌%◌, ◌<◌, ◌≤◌, ◌≡◌, ◌≢◌, refl, ap, ◌∙◌, List, ◌++◌, true, false, ◌==◌,
  ◌!=◌, if_true, if_false, length, get_or, IsByte, All, arith,
}
use split_flap.Boot.Hardware.{page_size, bootloader_start, Hardware, IsSpm}
use split_flap.Boot.State.{Image}
use split_flap.Boot.Loop.{left_loop}
use split_flap.Boot.Twi.{serve}
use split_flap.Boot.Twi.Page.{page_transfer, page_programmed}
use split_flap.Bus.Twiboot.{ok, page_bytes, flash_command, write_flash_page}
use split_flap.Bus.Wired.{World, Setting, is_writing, frame, wired}
use split_flap.Bus.Wired.Timer.{IsUp, IsPaced, IsUp-le}
use split_flap.Bus.Wired.Frames.{framed}
use split_flap.Bus.Wired.Burst.{burst_lem}
use split_flap.Bus.Wired.Calls.{frame_free, reached, reached-IsUp}
use split_flap.Bus.Wired.Waits.{IsReady}

-- A page of a flash holds these bytes.
abbrev pub PageIs : {F E : Type 0} → Hardware F E → F → ℕ → List ℕ → Type 0
PageIs hw f page bytes = (i : ℕ) → i < page_size → hw.read_flash f (page + i) ≡ get_or bytes i 0

-- Two flashes differ in one page only.
abbrev pub Outside : {F E : Type 0} → Hardware F E → F → F → ℕ → Type 0
Outside hw f g page =
    (a : ℕ) → a / page_size ≢ page / page_size → hw.read_flash g a ≡ hw.read_flash f a

module _ {F E : Type 0} (hw : Hardware F E) (spm : IsSpm hw) (image : Image) (set : Setting)
    (addr : ℕ) (paced : IsPaced set) (quick : set.cost ≤ 700) where
  -- What the burst of a page leaves.
  pub record Programmed (page : ℕ) (bytes : List ℕ) (f : F) (w : World F E) : Type 0 where
    pub up : IsUp image set 1600 w.boot.flash w
    pub inside : PageIs hw w.boot.flash page bytes
    pub outside : Outside hw f w.boot.flash page

  burst-Programmed :
      (page : ℕ) (bytes : List ℕ) (f : F) (w : World F E)
      → page % page_size ≡ 0
      → page < bootloader_start
      → length bytes ≡ page_size
      → All IsByte bytes
      → IsReady image set f w
      → let r =
          frame hw image set addr
            (reached hw image set addr paced (flash_command page ++ bytes) w) in
        (r.0 ≡ 0) × Programmed page bytes f r.1
  burst-Programmed page bytes f w al low n all ready =
      let hi = page / 256 % 256 in
      let lo = page % 256 in
      let v = reached hw image set addr paced (flash_command page ++ bytes) w in
      let t = serve hw image (page_transfer hi lo bytes) v.boot in
      let (up, idled, clock, at, target, queued) =
        reached-IsUp hw image set addr paced (flash_command page ++ bytes) (1600 - set.cost) f w
          (IsUp-le image set (set.cost + (1600 - set.cost)) 1600 f w (omega arith) ready.up) in
      let (whole, c, unit) =
        burst_lem hw spm image hi lo (1600 - set.cost) bytes f v.boot (omega arith) (omega arith) n
          up.waiting in
      let taken : framed hw image v.queued v.boot ≡ (0, t) =
        ap (λ q. framed hw image q v.boot) queued ∙ whole in
      let e =
        frame_free hw image set addr paced v up.live target (omega (arith, clock, at, ready.free))
          up.waiting.acks in
      let place : hi * 256 + lo ≡ page = omega arith in
      let (_, inside, outside) =
        page_programmed hw spm image hi lo bytes v.boot (omega arith) (omega arith) all
          up.waiting.whole n (rw place al) (rw place low) in
      let soon = if_true (is_writing t.cmd) (v.clock + set.busy) v.free_at (ap is_writing c) in
      rw (e, taken)
        (
          refl,
          record {
            up = record { live = ap left_loop c; waiting = unit; free_soon = omega (arith, soon) };
            inside = rw place at inside;
            outside =
                λ a d. (rw place at outside) a d ∙ ap (λ g. hw.read_flash g a) up.waiting.holds;
          },
        )

  -- The write of a whole page is ACKed.
  pub write_flash_page-Programmed :
      (page : ℕ) (bytes : List ℕ) (f : F) (w : World F E)
      → page % page_size ≡ 0
      → page < bootloader_start
      → length bytes ≡ page_size
      → All IsByte bytes
      → IsReady image set f w
      → let r = write_flash_page (wired hw image set addr) addr page bytes w in
        (r.0 ≡ ok) × Programmed page bytes f r.1
  unfolding write_flash_page
  write_flash_page-Programmed page bytes f w al low n all ready =
      let (status, done) = burst-Programmed page bytes f w al low n all ready in
      let taken : (suc (suc (suc (suc (length bytes)))) != page_bytes + 4) ≡ false =
        ground (arith, n) in
      let r =
        frame hw image set addr (reached hw image set addr paced (flash_command page ++ bytes) w) in
      let acked : (r.0 == 0) ≡ true = ap (λ n. n == 0) status in
      let e : write_flash_page (wired hw image set addr) addr page bytes w ≡ (ok, r.1) =
        if_false _ _ _ taken ∙ if_true _ _ _ acked in
      rw e (refl, done)
