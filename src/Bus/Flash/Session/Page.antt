-- ===== src/Bus/Flash/Session/Page.antt =====
-- firmware/v2/shared/TwibootFlash.h: the calls that a flash makes keep to its sessions.
use split_flap.Common.{
  ℕ, zero, suc, ◌+◌, ◌<◌, ◌≡◌, refl, Option, none, some, List, Bool, true, false, not, ◌==◌, ◌!=◌,
  if◌then◌else◌, if_both, if_known, length, arith,
}
use split_flap.Bus.Adapter.{Bus}
use split_flap.Bus.Twiboot.{
  TwibootStep, ok, page_not_ready, page_stuck_busy, page_burst_truncated, page_write_failed, is_ok,
  page_bytes, page_read_attempts, flash_command, same_bytes, wait_ready, ask, read_flash_page,
  write_flash_page, read_back, page_attempts, flash_and_verify_page, whole_reply, judge_page,
  or_again, page_write_attempts,
}
use split_flap.Bus.Flash.{step_page, step_addr, step_count}
use split_flap.Bus.Flash.Quiet.{ask_both}
use split_flap.Bus.Flash.Trace.{Traced, traced}
use split_flap.Bus.Flash.Session.{
  at, Session, asked, answered, burst, confirmed, step_burst, same_bytes-≡, Open,
  wait_ready-Session,
}

module _ {W : Type 0} (bus : Bus W) (addr : ℕ) (pages : ℕ → List ℕ) (page_count : ℕ) where
  -- A read of step `n`'s page: what came may confirm it.
  Answer : ℕ → Option (List ℕ) × Traced W → Type 0
  Answer n (none, t) = Session addr pages page_count (at n true) t.log
  Answer n (some b, t) =
      Session addr pages page_count (at n true) t.log
      × (b ≡ step_page pages page_count n → Session addr pages page_count (at (suc n) false) t.log)

  whole_reply-Answer :
      (n qty : ℕ) (r : Option (List ℕ) × Traced W)
      → Answer n r
      → Answer n (whole_reply (traced bus) addr qty r)
  unfolding whole_reply Answer
  whole_reply-Answer n qty (none, t) s = s
  whole_reply-Answer n qty (some b, t) s = if_both (Answer n) (length b != qty) _ _ s.0 s

  read_flash_page-Answer :
      (n : ℕ) (t : Traced W)
      → Session addr pages page_count (at n true) t.log
      → Answer n (read_flash_page (traced bus) addr (step_addr page_count n) t)
  unfolding read_flash_page Answer
  read_flash_page-Answer n t s =
      whole_reply-Answer n page_bytes
        (ask (traced bus) addr (flash_command (step_addr page_count n)) page_bytes t)
        (ask_both bus addr (Answer n) _ page_bytes t (λ status u e. rw e (asked 1 _ _ status s))
          (λ status b u e. (
            rw e (answered _ b (asked 1 _ _ status s)),
            λ same. rw e (rw same (confirmed n status s)),
          )))

  or_again-Answer :
      (n : ℕ) (r : Option (List ℕ) × Traced W) (again : Option (List ℕ) × Traced W)
      → Answer n r
      → (Session addr pages page_count (at n true) r.1.log → Answer n again)
      → Answer n (or_again (traced bus) addr r.0 r.1 again)
  unfolding or_again Answer
  or_again-Answer n (none, t) again a next = next a
  or_again-Answer n (some b, t) again a next = a

  read_back-Answer :
      (n k : ℕ) (t : Traced W)
      → Session addr pages page_count (at n true) t.log
      → Answer n (read_back (traced bus) addr k (step_addr page_count n) t)
  unfolding read_back Answer
  read_back-Answer n zero t s = s
  read_back-Answer n (suc k) t s =
      or_again-Answer n (read_flash_page (traced bus) addr (step_addr page_count n) t) _
        (read_flash_page-Answer n t s) (λ s. read_back-Answer n k _ s)

  -- What an attempt to write and confirm the page of step `n` leaves.
  unfoldable pub Judged : ℕ → TwibootStep × ℕ × Traced W → Type 0
  Judged n (s, _, t) =
      if is_ok s
      then Session addr pages page_count (at (suc n) false) t.log
      else Open bus addr pages page_count n t.log

  Written : ℕ → TwibootStep × Traced W → Type 0
  Written n (s, t) =
      if is_ok s
      then Session addr pages page_count (at n true) t.log
      else Open bus addr pages page_count n t.log

  stays-Written :
      (n : ℕ) (s : TwibootStep) (t : Traced W)
      → is_ok s ≡ false
      → Open bus addr pages page_count n t.log
      → Written n (s, t)
  unfolding Written
  stays-Written n s t e o = rw e o

  Written-split :
      (n : ℕ) (r : TwibootStep × Traced W)
      → Written n r
      → (is_ok r.0 ≡ true → Session addr pages page_count (at n true) r.1.log)
        × (is_ok r.0 ≡ false → Open bus addr pages page_count n r.1.log)
  unfolding Written
  Written-split n (s, t) w = (λ e. rw e at w, λ e. rw e at w)

  stays-Judged :
      (n rewrites : ℕ) (s : TwibootStep) (t : Traced W)
      → is_ok s ≡ false
      → Open bus addr pages page_count n t.log
      → Judged n (s, rewrites, t)
  unfolding Judged
  stays-Judged n rewrites s t e o = rw e o

  ok-Judged :
      (n rewrites : ℕ) (t : Traced W)
      → Session addr pages page_count (at (suc n) false) t.log
      → Judged n (ok, rewrites, t)
  unfolding Judged
  ok-Judged n rewrites t s = s

  sent-Written :
      (n : ℕ) (t : Traced W) → Session addr pages page_count (at n true) t.log → Written n (ok, t)
  unfolding Written
  sent-Written n t s = s

  write_flash_page-Written :
      (n : ℕ) (t : Traced W)
      → n < step_count page_count
      → Open bus addr pages page_count n t.log
      → Written n (
          write_flash_page
            (traced bus)
            addr
            (step_addr page_count n)
            (step_page pages page_count n)
            t)
  unfolding write_flash_page
  write_flash_page-Written n t h (b, s) =
      let q = (traced bus).queue addr (step_burst pages page_count n) t in
      let e = (traced bus).end_transmission true q.1 in
      let burst_sent = burst n b e.0 h s in
      if_both (Written n) (q.0 != page_bytes + 4) (page_burst_truncated, q.1) _
        (stays-Written n page_burst_truncated q.1 refl (b, s))
        (if_both (Written n) (e.0 == 0) (ok, e.1) (page_write_failed, e.1)
          (sent-Written n e.1 burst_sent)
          (stays-Written n page_write_failed e.1 refl (true, burst_sent)))

  judge_page-Judged :
      (n rewrites : ℕ) (reply : Option (List ℕ)) (t : Traced W) (again : TwibootStep × ℕ × Traced W)
      → Answer n (reply, t)
      → (Session addr pages page_count (at n true) t.log → Judged n again)
      → Judged n
          (judge_page (traced bus) addr (step_page pages page_count n) rewrites reply t again)
  unfolding judge_page Answer
  judge_page-Judged n rewrites none t again a next = stays-Judged n _ _ _ refl (true, a)
  judge_page-Judged n rewrites (some b) t again (s, matched) next =
      if_known (Judged n) (same_bytes b (step_page pages page_count n)) _ _
        (λ e. ok-Judged n _ _ (matched (same_bytes-≡ b _ e))) (λ e. next s)

  Bool-not : (b : Bool) → (not b ≡ true → b ≡ false) × (not b ≡ false → b ≡ true)
  Bool-not b = ground arith

  page_attempts-Judged :
      (n k rewrites : ℕ) (t : Traced W)
      → n < step_count page_count
      → Open bus addr pages page_count n t.log
      → Judged n (
          page_attempts
            (traced bus)
            addr
            k
            (step_addr page_count n)
            (step_page pages page_count n)
            rewrites
            t)
  unfolding page_attempts
  page_attempts-Judged n zero rewrites t h o = stays-Judged n _ _ _ refl o
  page_attempts-Judged n (suc k) rewrites t h (b, s) =
      let bus' = traced bus in
      let at_ = step_addr page_count n in
      let page = step_page pages page_count n in
      let r1 = wait_ready bus' addr 100 t in
      let r2 = write_flash_page bus' addr at_ page r1.1 in
      let r3 = wait_ready bus' addr 50 r2.1 in
      let r4 = read_back bus' addr page_read_attempts at_ r3.1 in
      let again = page_attempts bus' addr k at_ page (rewrites + 1) r4.1 in
      let judged = judge_page bus' addr page rewrites r4.0 r4.1 again in
      let stuck : TwibootStep × ℕ × Traced W = (page_stuck_busy, rewrites, r3.1) in
      let late : TwibootStep × ℕ × Traced W = if not r3.0 then stuck else judged in
      let s1 = wait_ready-Session bus addr pages page_count (at n b) 100 t s in
      let (burst_sent, refused) = Written-split n r2 (write_flash_page-Written n r1.1 h (b, s1)) in
      if_both (Judged n) (not r1.0) (page_not_ready, rewrites, r1.1) _
        (stays-Judged n rewrites page_not_ready r1.1 refl (b, s1))
        (if_known (Judged n) (not (is_ok r2.0)) (r2.0, rewrites, r2.1) late
          (λ e.
            let e' = (Bool-not (is_ok r2.0)).0 e in
            stays-Judged n rewrites r2.0 r2.1 e' (refused e'))
          (λ e.
            let s2 = burst_sent ((Bool-not (is_ok r2.0)).1 e) in
            let s3 = wait_ready-Session bus addr pages page_count (at n true) 50 r2.1 s2 in
            if_both (Judged n) (not r3.0) stuck judged
              (stays-Judged n rewrites page_stuck_busy r3.1 refl (true, s3))
              (judge_page-Judged n rewrites r4.0 r4.1 again
                (read_back-Answer n page_read_attempts r3.1 s3)
                (λ s4. page_attempts-Judged n k (rewrites + 1) r4.1 h (true, s4)))))

  pub flash_and_verify_page-Judged :
      (n : ℕ) (t : Traced W)
      → n < step_count page_count
      → Open bus addr pages page_count n t.log
      → Judged n (
          flash_and_verify_page
            (traced bus)
            addr
            (step_addr page_count n)
            (step_page pages page_count n)
            t)
  unfolding flash_and_verify_page
  flash_and_verify_page-Judged n t h o = page_attempts-Judged n page_write_attempts 0 t h o

  pub Judged-split :
      (n : ℕ) (r : TwibootStep × ℕ × Traced W)
      → Judged n r
      → (is_ok r.0 ≡ true → Session addr pages page_count (at (suc n) false) r.2.log)
        × (is_ok r.0 ≡ false → Open bus addr pages page_count n r.2.log)
  unfolding Judged
  Judged-split n (s, c, t) j = (λ e. rw e at j, λ e. rw e at j)
