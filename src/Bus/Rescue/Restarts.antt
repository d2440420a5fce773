-- ===== src/Bus/Rescue/Restarts.antt =====
-- firmware/v2/shared/UnitBusTwiboot.h: when the read of a boot section tells the unit to start.
use split_flap.Common.{
  ℕ, zero, suc, ◌+◌, ◌*◌, ◌<◌, ◌≤◌, ◌≡◌, ◌≢◌, refl, ap, ◌∙◌, Option, none, some, List, [], ◌∷◌,
  Bool, true, false, not, ◌&&◌, ◌||◌, ◌==◌, if◌then◌else◌, if_both, if_known, arith,
}
use split_flap.Bus.Adapter.{Bus, transmit, transmit_counted}
use split_flap.Bus.Twiboot.{
  is_ok, page_bytes, boot_section_start, same_bytes, exit, await_bootloader_in, await_bootloader,
  ping, wait_command, verify_chip, read_flash_page, or_again,
}
use split_flap.Bus.Flash.Trace.{Event, sent, got, is_exit, exits, Traced, traced, fresh}
use split_flap.Bus.Flash.Quiet.{
  IsQuiet, await_bootloader-quiet, verify_chip-quiet, read_flash_page-quiet,
}
use split_flap.Bus.Sketch.{reboot_sketch, send_guarded}
use split_flap.Bus.Rescue.{
  UnitBootReadResult, silent, page_twice, and_then, read_pages, try_exit, restart_unit,
  read_boot_section, boot_section_pages, read_result,
}
use split_flap.Bus.Rescue.Exits.{Exits, Exits-IsQuiet}

-- A poll of the bootloader that the unit ACKed.
unfoldable pub is_answer : ℕ → Event → Bool
unfolding same_bytes
is_answer addr (sent a bytes stop status) =
    a == addr && same_bytes bytes wait_command && stop && status == 0
is_answer addr (got a command bytes) = false

-- Whether the unit answered as a bootloader.
abbrev pub answered : ℕ → List Event → Bool
answered addr [] = false
answered addr (e ∷ l) = is_answer addr e || answered addr l

or_true : (b c : Bool) → c ≡ true → b || c ≡ true
or_true b c e = ground (arith, e)

-- One poll says what it was answered.
is_answer-poll :
    (addr status : ℕ) → is_answer addr (sent addr wait_command true status) ≡ (status == 0)
unfolding is_answer same_bytes
is_answer-poll addr status = ground arith

abbrev pub is_silent : UnitBootReadResult → Bool
is_silent silent = true
is_silent _ = false

module _ {W : Type 0} (bus : Bus W) (keep_alive : W → W) (addr : ℕ) where
  -- The caller's hook, which does not touch the bus, in front of the traced bus.
  abbrev pub traced_keep_alive : Traced W → Traced W
  traced_keep_alive t = record t { world = keep_alive t.world }

  or_again-kept :
      (P : List Event → Type 0) (o : Option (List ℕ)) (t : Traced W)
      (again : Option (List ℕ) × Traced W)
      → P t.log
      → P again.1.log
      → P (or_again (traced bus) addr o t again).1.log
  unfolding or_again
  or_again-kept P none t again s a = a
  or_again-kept P (some b) t again s a = s

  and_then-kept :
      (P : List Event → Type 0) (o : Option (List ℕ)) (t : Traced W)
      (rest : List ℕ → Option (List ℕ) × Traced W)
      → P t.log
      → ((b : List ℕ) → P (rest b).1.log)
      → P (and_then (traced bus) traced_keep_alive addr o t rest).1.log
  unfolding and_then
  and_then-kept P none t rest s r = s
  and_then-kept P (some b) t rest s r = r b

  -- The reads of the pages only ask.
  read_pages-kept :
      (P : List Event → Type 0) (q : IsQuiet bus addr P) (k page : ℕ) (out : List ℕ) (t : Traced W)
      → P t.log
      → P (read_pages (traced bus) traced_keep_alive addr k page out t).1.log
  unfolding read_pages page_twice
  read_pages-kept P q zero page out t s = s
  read_pages-kept P q (suc k) page out t s =
      let at_ = boot_section_start + page * page_bytes in
      let t1 = traced_keep_alive t in
      let r1 = read_flash_page (traced bus) addr at_ t1 in
      let r2 = read_flash_page (traced bus) addr at_ r1.1 in
      let s1 = read_flash_page-quiet bus addr P q at_ t1 s in
      let s2 = read_flash_page-quiet bus addr P q at_ r1.1 s1 in
      let r = page_twice (traced bus) traced_keep_alive addr at_ t1 in
      let s3 : P r.1.log = or_again-kept P r1.0 r1.1 r2 s1 s2 in
      and_then-kept P r.0 r.1 _ s3 (λ b. read_pages-kept P q k (page + 1) _ r.1 s3)

  try_exit-exits :
      (n m : ℕ) (t : Traced W)
      → exits t.log ≡ m
      → let e = exits (try_exit (traced bus) traced_keep_alive addr n t).1.log in
        (m ≤ e) × (e ≤ m + n) × (0 < n → m < e)
  unfolding try_exit exit transmit exits is_exit same_bytes
  try_exit-exits zero m t s = (omega (arith, s), omega (arith, s), λ h. absurd (omega arith))
  try_exit-exits (suc n) m t s =
      let r = exit (traced bus) addr t in
      let s1 : exits r.1.log ≡ m + 1 = ap (λ k. k + 1) s in
      let t2 = (traced bus).sleep_ms 20 r.1 in
      let (a, b, c) = try_exit-exits n (m + 1) t2 s1 in
      if_both
        (λ (u : Bool × Traced W).
          (m ≤ exits u.1.log) × (exits u.1.log ≤ m + suc n) × (0 < suc n → m < exits u.1.log))
        (r.0 == 0) (true, r.1) (try_exit (traced bus) traced_keep_alive addr n t2)
        (omega (arith, s1), omega (arith, s1), λ h. omega (arith, s1))
        (omega (arith, a), omega (arith, b), λ h. omega (arith, a))

  restart_unit-exits :
      (t : Traced W)
      → exits t.log ≡ 0
      → let e = exits (restart_unit (traced bus) traced_keep_alive addr t).2.log in
        (1 ≤ e) × (e ≤ 3)
  unfolding restart_unit transmit transmit_counted reboot_sketch send_guarded exits is_exit
      same_bytes
  restart_unit-exits t s =
      let b = traced bus in
      let r1 = try_exit b traced_keep_alive addr 3 t in
      let (lo, hi, more) = try_exit-exits 3 0 t s in
      let few : (1 ≤ exits r1.1.log) × (exits r1.1.log ≤ 3) = (more (omega arith), hi) in
      let r2 = transmit b addr [] true (b.sleep_ms 2000 (traced_keep_alive r1.1)) in
      let r3 = reboot_sketch b addr r2.1 in
      let P = λ (u : Bool × Bool × Traced W). (1 ≤ exits u.2.log) × (exits u.2.log ≤ 3) in
      if_both P (not r1.0) (false, false, r1.1) _ few
        (if_both P (r2.0 == 0) (true, true, r3.1) (true, false, r2.1) few few)

  Answered-IsQuiet : IsQuiet bus addr (λ l. answered addr l ≡ true)
  Answered-IsQuiet = record {
    polls = λ status l s. or_true _ _ s;
    asks = λ kind hi lo status l s. or_true _ _ s;
    answers = λ command bytes l s. or_true _ _ s;
  }

  await_bootloader_in-Answered :
      (n : ℕ) (t : Traced W)
      → answered addr t.log ≡ false
      → let r = await_bootloader_in (traced bus) addr n t in answered addr r.1.log ≡ r.0
  unfolding await_bootloader_in ping transmit
  await_bootloader_in-Answered zero t s = s
  await_bootloader_in-Answered (suc n) t s =
      let r = ping (traced bus) addr t in
      let told : answered addr r.1.log ≡ (r.0 == 0) = ground (arith, s, is_answer-poll addr r.0) in
      if_known (λ (u : Bool × Traced W). answered addr u.1.log ≡ u.0) (r.0 == 0) _ _ (λ e. told ∙ e)
        (λ e. await_bootloader_in-Answered n ((traced bus).sleep_ms 100 r.1) (told ∙ e))

  try_exit-Answered :
      (n : ℕ) (t : Traced W)
      → answered addr t.log ≡ true
      → answered addr (try_exit (traced bus) traced_keep_alive addr n t).1.log ≡ true
  unfolding try_exit exit transmit
  try_exit-Answered zero t s = s
  try_exit-Answered (suc n) t s =
      let r = exit (traced bus) addr t in
      let s1 : answered addr r.1.log ≡ true = or_true _ _ s in
      if_both (λ (u : Bool × Traced W). answered addr u.1.log ≡ true) (r.0 == 0) _ _ s1
        (try_exit-Answered n ((traced bus).sleep_ms 20 r.1) s1)

  restart_unit-Answered :
      (t : Traced W)
      → answered addr t.log ≡ true
      → answered addr (restart_unit (traced bus) traced_keep_alive addr t).2.log ≡ true
  unfolding restart_unit transmit transmit_counted reboot_sketch send_guarded
  restart_unit-Answered t s =
      let b = traced bus in
      let r1 = try_exit b traced_keep_alive addr 3 t in
      let s1 = try_exit-Answered 3 t s in
      let r2 = transmit b addr [] true (b.sleep_ms 2000 (traced_keep_alive r1.1)) in
      let s2 : answered addr r2.1.log ≡ true = or_true _ _ s1 in
      let r3 = reboot_sketch b addr r2.1 in
      let s3 : answered addr r3.1.log ≡ true = or_true _ _ s2 in
      let P = λ (u : Bool × Bool × Traced W). answered addr u.2.log ≡ true in
      if_both P (not r1.0) (false, false, r1.1) _ s1
        (if_both P (r2.0 == 0) (true, true, r3.1) (true, false, r2.1) s3 s2)

  not_silent : (chip : Bool) (bytes : Option (List ℕ)) → is_silent (read_result chip bytes) ≢ true
  unfolding read_result
  not_silent false bytes h = ground arith
  not_silent true none h = ground arith
  not_silent true (some b) h = ground arith

  -- What a read comes to: the exits sent by whether the unit answered, and the result `Silent`.
  abbrev Read : UnitBootReadResult × Option (List ℕ) × Bool × Bool × Traced W → Type 0
  Read (result, bytes, exited, again, t) =
      (is_silent result ≡ not (answered addr t.log))
      × (answered addr t.log ≡ false → exits t.log ≡ 0)
      × (answered addr t.log ≡ true → (1 ≤ exits t.log) × (exits t.log ≤ 3))

  -- Whatever the bus answers: a unit that ACKed a poll of its bootloader is told to start its sketch,
  -- at least once and at most three times, whatever the read of its boot section came to; one that did
  -- not is never told to, and the result is `Silent` for that one only.
  pub read_boot_section-exits :
      (w : W)
      → let (result, bytes, exited, again, t) =
          read_boot_section (traced bus) traced_keep_alive addr (fresh w) in
        (is_silent result ≡ not (answered addr t.log))
        × (answered addr t.log ≡ false → exits t.log ≡ 0)
        × (answered addr t.log ≡ true → (1 ≤ exits t.log) × (exits t.log ≤ 3))
  unfolding read_boot_section await_bootloader Exits exits
  read_boot_section-exits w =
      let b = traced bus in
      let q = Exits-IsQuiet bus addr 0 in
      let t = fresh w in
      let r1 = await_bootloader b addr t in
      let s1 = await_bootloader-quiet bus addr (Exits bus addr 0) q t refl in
      let a1 : answered addr r1.1.log ≡ r1.0 = await_bootloader_in-Answered 5 t refl in
      let r2 = verify_chip b addr r1.1 in
      let s2 = verify_chip-quiet bus addr (Exits bus addr 0) q r1.1 s1 in
      let r3 = read_pages b traced_keep_alive addr boot_section_pages 0 [] r2.1 in
      let s3 = read_pages-kept (Exits bus addr 0) q boot_section_pages 0 [] r2.1 s2 in
      let t3 = if is_ok r2.0 then r3.1 else r2.1 in
      let s4 = if_both (λ (u : Traced W). exits u.log ≡ 0) (is_ok r2.0) r3.1 r2.1 s3 s2 in
      let r4 = restart_unit b traced_keep_alive addr t3 in
      let s5 = restart_unit-exits t3 s4 in
      let A = λ (l : List Event). answered addr l ≡ true in
      let bytes : Option (List ℕ) = if is_ok r2.0 then r3.0 else none in
      let silent_not = not_silent (is_ok r2.0) r3.0 in
      if_known Read (not r1.0) (silent, none, false, false, r1.1)
        (read_result (is_ok r2.0) r3.0, bytes, r4.0, r4.1, r4.2)
        (λ e. (ground (arith, e, a1), λ h. s1, λ h. absurd (ground (arith, e, a1, h))))
        (λ e.
          let a2 = verify_chip-quiet bus addr A Answered-IsQuiet r1.1 (ground (arith, a1, e)) in
          let a3 = read_pages-kept A Answered-IsQuiet boot_section_pages 0 [] r2.1 a2 in
          let a4 =
            if_both (λ (u : Traced W). answered addr u.log ≡ true) (is_ok r2.0) r3.1 r2.1 a3 a2 in
          let a5 = restart_unit-Answered t3 a4 in
          (ground (arith, a5, silent_not), λ h. absurd (ground (arith, a5, h)), λ h. s5))
