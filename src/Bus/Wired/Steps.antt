-- ===== src/Bus/Wired/Steps.antt =====
-- One page of a flash, and one step of its loop, on a unit whose bootloader waits for its master.
use split_flap.Common.{
  ℕ, suc, ◌-◌, ◌%◌, ◌<◌, ◌≤◌, ◌≡◌, refl, sym, ap, ap₂, ◌∙◌, List, [], ◌∷◌, Option, some, true, not,
  ◌&&◌, ◌==◌, if_true, if_false, length, get_or, IsByte, All, arith,
}
use split_flap.Boot.Hardware.{page_size, bootloader_start, Hardware, IsSpm}
use split_flap.Boot.State.{Image}
use split_flap.Bus.Twiboot.{
  TwibootStep, ok, is_ok, page_read_attempts, same_bytes, or_again, wait_ready, read_flash_page,
  write_flash_page, read_back, judge_page, page_attempts, flash_and_verify_page,
}
use split_flap.Bus.Wired.{World, Setting, wired}
use split_flap.Bus.Wired.Timer.{IsUp, IsPaced}
use split_flap.Bus.Wired.Waits.{wait_ready-IsReady}
use split_flap.Bus.Wired.Pages.{PageIs, Outside, write_flash_page-Programmed}
use split_flap.Bus.Wired.Replies.{read_flash_page-IsUp}

same_bytes-of_get :
    (xs ys : List ℕ)
    → length xs ≡ length ys
    → ((i : ℕ) → i < length xs → get_or xs i 0 ≡ get_or ys i 0)
    → same_bytes xs ys ≡ true
unfolding same_bytes
same_bytes-of_get [] [] n h = refl
same_bytes-of_get [] (y ∷ ys) n h = absurd (omega (arith, n))
same_bytes-of_get (x ∷ xs) [] n h = absurd (omega (arith, n))
same_bytes-of_get (x ∷ xs) (y ∷ ys) n h =
    let first : (x == y) ≡ true = ground (arith, h 0 (omega arith)) in
    let rest = same_bytes-of_get xs ys (omega (arith, n)) (λ i l. h (suc i) (omega (arith, l))) in
    ap₂ (λ a b. a && b) first rest

-- The time that a frame and a page write take.
pub record IsQuick (set : Setting) : Type 0 where
  pub frames : set.cost ≤ 700
  pub writes : set.busy < 50

module _ {F E : Type 0} (hw : Hardware F E) (spm : IsSpm hw) (image : Image) (set : Setting)
    (addr : ℕ) (paced : IsPaced set) (quick : IsQuick set) where
  -- A flash in which the page is what was sent, and all else is as it was.
  pub record Stored (page : ℕ) (bytes : List ℕ) (f : F) (r : TwibootStep × ℕ × World F E)
      : Type 0 where
    pub step : r.0 ≡ ok
    pub rewrites : r.1 ≡ 0
    pub flash : F
    pub up : IsUp image set (1600 - set.cost) flash r.2
    pub free : r.2.free_at ≤ r.2.clock
    pub inside : PageIs hw flash page bytes
    pub outside : Outside hw f flash page

  -- The page is on the unit behind the first attempt, with no rewrite.
  pub flash_and_verify_page-Stored :
      (page : ℕ) (bytes : List ℕ) (f : F) (w : World F E)
      → page % page_size ≡ 0
      → page < bootloader_start
      → length bytes ≡ page_size
      → All IsByte bytes
      → IsUp image set (1600 - set.cost) f w
      → Stored page bytes f (flash_and_verify_page (wired hw image set addr) addr page bytes w)
  unfolding flash_and_verify_page page_attempts read_back or_again judge_page
  flash_and_verify_page-Stored page bytes f w al low n all up =
      let bus = wired hw image set addr in
      let (before, ready) =
        wait_ready-IsReady hw image set addr paced 100 (1600 - set.cost) f w
          (omega (arith, quick.writes)) (omega arith) (omega (arith, quick.frames, quick.writes))
          up in
      let w1 = (wait_ready bus addr 100 w).1 in
      let (wrote, done) =
        write_flash_page-Programmed hw spm image set addr paced quick.frames page bytes f w1 al low
          n all ready in
      let w2 = (write_flash_page bus addr page bytes w1).1 in
      let (behind, ready') =
        wait_ready-IsReady hw image set addr paced 50 1600 w2.boot.flash w2
          (omega (arith, quick.writes)) (omega arith) (omega (arith, quick.frames, quick.writes))
          done.up in
      let w3 = (wait_ready bus addr 50 w2).1 in
      let (back, reply, n', at, up', free) =
        read_flash_page-IsUp hw image set addr paced quick.frames page w2.boot.flash w3 low
          ready' in
      let w4 = (read_flash_page bus addr page w3).1 in
      let same : same_bytes back bytes ≡ true =
        same_bytes-of_get back bytes (n' ∙ sym n)
          (λ i l. sym (at i (omega (arith, n', l))) ∙ done.inside i (omega (arith, n', l))) in
      let r = flash_and_verify_page bus addr page bytes w in
      let rb = read_back bus addr page_read_attempts page w3 in
      let found : rb ≡ (some back, w4) =
        ap (λ o. or_again bus addr o w4 (read_back bus addr 2 page w4)) reply in
      let again = page_attempts bus addr 1 page bytes 1 rb.1 in
      let judged : judge_page bus addr bytes 0 rb.0 rb.1 again ≡ (ok, 0, w4) =
        ap (λ (x : Option (List ℕ) × World F E). judge_page bus addr bytes 0 x.0 x.1 again) found
        ∙ if_true _ _ _ same in
      let e : r ≡ (ok, 0, w4) =
        if_false _ _ _ (ap not before)
        ∙ if_false _ _ _ (ap (λ s. not (is_ok s)) wrote)
        ∙ if_false _ _ _ (ap not behind)
        ∙ judged in
      rw e (record {
        step = refl;
        rewrites = refl;
        flash = w2.boot.flash;
        up = up';
        free = free;
        inside = done.inside;
        outside = done.outside;
      })
