-- ===== src/Bus/Flash/Quiet.antt =====
-- firmware/v2/shared/TwibootFlash.h: the calls of the client that only poll and ask.
use split_flap.Common.{
  ℕ, zero, suc, ◌≡◌, refl, Option, none, some, List, [], ◌∷◌, Bool, true, false, not, ◌==◌, ◌!=◌,
  ltb, if_both, length, get_or, sub32,
}
use split_flap.Bus.Adapter.{Bus, transmit}
use split_flap.Bus.Twiboot.{
  TwibootStep, page_bytes, wait_command, chipinfo_command, flash_command, is_atmega328p, ping,
  poll_until, wait_ready, await_bootloader_in, await_bootloader, ask, check_signature,
  is_bootloader, check_chip, verify_chip, whole_reply, read_flash_page,
}
use split_flap.Bus.Flash.Trace.{Event, sent, got, Traced, traced}

-- A property of logs that pings, requests of a place in a memory and replies keep.
pub record IsQuiet {W : Type 0} (bus : Bus W) (addr : ℕ) (P : List Event → Type 0) : Type 0 where
  pub polls : (status : ℕ) (l : List Event) → P l → P (sent addr wait_command true status ∷ l)
  pub asks :
      (kind hi lo status : ℕ) (l : List Event)
      → P l
      → P (sent addr (2 ∷ kind ∷ hi ∷ lo ∷ []) false status ∷ l)
  pub answers : (command bytes : List ℕ) (l : List Event) → P l → P (got addr command bytes ∷ l)

module _ {W : Type 0} (bus : Bus W) (addr : ℕ) where
  -- A request and its reply, as the log has them.
  pub ask_both :
      (P : Option (List ℕ) × Traced W → Type 0) (command : List ℕ) (qty : ℕ) (t : Traced W)
      → ((status : ℕ) (u : Traced W) → u.log ≡ sent addr command false status ∷ t.log → P (none, u))
      → ((status : ℕ) (b : List ℕ) (u : Traced W)
          → u.log ≡ got addr command b ∷ sent addr command false status ∷ t.log
          → P (some b, u))
      → P (ask (traced bus) addr command qty t)
  unfolding ask transmit
  ask_both P command qty t refused answer = if_both P _ _ _ (answer _ _ _ refl) (refused _ _ refl)

module _ {W : Type 0} (bus : Bus W) (addr : ℕ) (P : List Event → Type 0)
    (q : IsQuiet bus addr P) where
  abbrev Kept : {A : Type 0} → A × Traced W → Type 0
  Kept (_, t) = P t.log

  ping-quiet : (t : Traced W) → P t.log → P (ping (traced bus) addr t).1.log
  unfolding ping transmit
  ping-quiet t s = q.polls _ t.log s

  poll_until-quiet :
      (fuel deadline : ℕ) (t : Traced W)
      → P t.log
      → P (poll_until (traced bus) addr fuel deadline t).1.log
  unfolding poll_until
  poll_until-quiet zero deadline t s = s
  poll_until-quiet (suc fuel) deadline t s =
      let t1 = (traced bus).now_ms t in
      let t2 = ping (traced bus) addr t1.1 in
      let s2 = ping-quiet t1.1 s in
      let K = λ (r : Bool × Traced W). P r.1.log in
      if_both K (ltb (sub32 t1.0 deadline) 2147483648) _ _ s (
        if_both K (t2.0 == 0) _ _ s2
          (poll_until-quiet fuel deadline ((traced bus).sleep_ms 1 t2.1) s2))

  pub wait_ready-quiet :
      (timeout : ℕ) (t : Traced W) → P t.log → P (wait_ready (traced bus) addr timeout t).1.log
  unfolding wait_ready
  wait_ready-quiet timeout t s = poll_until-quiet (suc timeout) _ _ s

  await_bootloader_in-quiet :
      (n : ℕ) (t : Traced W) → P t.log → P (await_bootloader_in (traced bus) addr n t).1.log
  unfolding await_bootloader_in
  await_bootloader_in-quiet zero t s = s
  await_bootloader_in-quiet (suc n) t s =
      let t1 = ping (traced bus) addr t in
      let s1 = ping-quiet t s in
      if_both (λ (r : Bool × Traced W). P r.1.log) (t1.0 == 0) _ _ s1
        (await_bootloader_in-quiet n ((traced bus).sleep_ms 100 t1.1) s1)

  pub await_bootloader-quiet :
      (t : Traced W) → P t.log → P (await_bootloader (traced bus) addr t).1.log
  unfolding await_bootloader
  await_bootloader-quiet t s = await_bootloader_in-quiet 5 t s

  pub request-quiet :
      (kind hi lo qty : ℕ) (t : Traced W)
      → P t.log
      → P (ask (traced bus) addr (2 ∷ kind ∷ hi ∷ lo ∷ []) qty t).1.log
  request-quiet kind hi lo qty t s =
      ask_both bus addr (λ (r : Option (List ℕ) × Traced W). P r.1.log) _ qty t
        (λ status u e. rw e (q.asks kind hi lo status t.log s))
        (λ status b u e. rw e (q.answers _ b _ (q.asks kind hi lo status t.log s)))

  check_chip-quiet :
      (r : Option (List ℕ) × Traced W) → P r.1.log → P (check_chip (traced bus) addr r).1.log
  unfolding check_chip
  check_chip-quiet (none, t) s = s
  check_chip-quiet (some b, t) s =
      let sig = is_atmega328p (get_or b 0 0) (get_or b 1 0) (get_or b 2 0) in
      let K = λ (r : TwibootStep × Traced W). P r.1.log in
      if_both K (length b != 8) _ _ s
        (if_both K (not sig) _ _ s (if_both K (get_or b 3 0 != page_bytes) _ _ s s))

  pub verify_chip-quiet : (t : Traced W) → P t.log → P (verify_chip (traced bus) addr t).1.log
  unfolding verify_chip
  verify_chip-quiet t s =
      check_chip-quiet (ask (traced bus) addr chipinfo_command 8 t) (request-quiet 0 0 0 8 t s)

  check_signature-quiet :
      (r : Option (List ℕ) × Traced W) → P r.1.log → P (check_signature (traced bus) addr r).1.log
  unfolding check_signature
  check_signature-quiet (none, t) s = s
  check_signature-quiet (some b, t) s =
      if_both (λ (r : Bool × Traced W). P r.1.log) (ltb (length b) 3) _ _ s s

  pub is_bootloader-quiet : (t : Traced W) → P t.log → P (is_bootloader (traced bus) addr t).1.log
  unfolding is_bootloader
  is_bootloader-quiet t s =
      check_signature-quiet (ask (traced bus) addr chipinfo_command 8 t) (request-quiet 0 0 0 8 t s)

  pub whole_reply-quiet :
      (n : ℕ) (r : Option (List ℕ) × Traced W)
      → P r.1.log
      → P (whole_reply (traced bus) addr n r).1.log
  unfolding whole_reply
  whole_reply-quiet n (none, t) s = s
  whole_reply-quiet n (some b, t) s =
      if_both (λ (r : Option (List ℕ) × Traced W). P r.1.log) (length b != n) _ _ s s

  pub read_flash_page-quiet :
      (flash_addr : ℕ) (t : Traced W)
      → P t.log
      → P (read_flash_page (traced bus) addr flash_addr t).1.log
  unfolding read_flash_page
  read_flash_page-quiet flash_addr t s =
      whole_reply-quiet page_bytes (ask (traced bus) addr (flash_command flash_addr) page_bytes t)
        (request-quiet 1 _ _ page_bytes t s)
