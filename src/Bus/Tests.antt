-- ===== src/Bus/Tests.antt =====
-- Witnesses for firmware/v2/shared/TwibootFlash.h, UnitBusTwiboot.h and UnitBusCore.h.
use split_flap.Common.{
  not, ℕ, ◌+◌, ◌*◌, ◌/◌, ◌<◌, ◌≤◌, ◌≡◌, refl, some, List, [], ◌∷◌, true, false, ◌==◌, if◌then◌else◌,
  length, replicate, u32, arith,
}
use split_flap.Common.Int.{negsuc}
use split_flap.Wire.Contract.{offset_readback_valid, offset_encode_reply, offset_checksum}
use split_flap.Bus.Adapter.{Bus, transmit_counted}
use split_flap.Bus.Twiboot.{poll_until, wait_ready}
use split_flap.Bus.Twiboot.Ready.{IsClocked, wait_ready-terminates}
use split_flap.Bus.Sketch.{write_offset, judge_offset, read_offset, query, send_payload, same_int}
use split_flap.Wire.Replies.{Vitals, vitals_encode_reply}
use split_flap.Bus.Sketch.Reads.{Report, Reading, read_report, read_report-said}
use split_flap.Bus.Flash.{Watch}
use split_flap.Bus.Flash.Trace.{exits, traced, fresh}
use split_flap.Bus.Flash.Session.Runs.{was_started, Ended, flash_image-Ended}
use split_flap.Bus.Flash.Session.Contents.{last_burst}
use split_flap.Bus.Flash.Safety.{Earlier-refl, IsSafe, run, flash_image-IsSafe, flash_image-exits}
use split_flap.Bus.Rescue.{read_boot_section}
use split_flap.Bus.Rescue.Restarts.{is_silent, answered, traced_keep_alive, read_boot_section-exits}

-- A unit in its bootloader that holds one page: the queued bytes, the page, the milliseconds.
record TestUnit : Type 0 where
  queued : List ℕ
  page : List ℕ
  time : ℕ

abbrev powered_up : TestUnit
powered_up = record { queued = []; page = []; time = 4294967290 }

-- The last burst is what it keeps.
abbrev kept : List ℕ → List ℕ → List ℕ
kept (_ ∷ _ ∷ _ ∷ _ ∷ b ∷ bytes) page = b ∷ bytes
kept _ page = page

-- Its answer by the kind of memory it was asked for.
abbrev answer : List ℕ → List ℕ → List ℕ
answer (c ∷ []) page = offset_encode_reply (negsuc 41)
answer (c ∷ kind ∷ _) page =
    if kind == 0 then 0x1e ∷ 0x95 ∷ 0x0f ∷ 128 ∷ 0x7c ∷ 0 ∷ 4 ∷ 0 ∷ [] else page
answer _ page = page

abbrev test_bus : Bus TestUnit
test_bus = record {
  queue = λ addr bytes w. (length bytes, record w { queued = bytes });
  end_transmission = λ stop w. (0, record w { page = kept w.queued w.page });
  end_counted = λ w. (0, w);
  receive = λ addr qty w. (answer w.queued w.page, w);
  now_ms = λ w. (u32 w.time, w);
  sleep_ms = λ ms w. record w { time = w.time + ms };
  read_failed = λ w. w;
  note_read_error = λ w. w;
  mark = λ act addr w. w;
}

abbrev test_watch : Watch TestUnit
test_watch = record { keep_going = λ w. (true, w); page_rewritten = λ a n w. w }

abbrev test_pages : ℕ → List ℕ
test_pages k = replicate 128 k

test_pages-whole : (k : ℕ) → length (test_pages k) ≡ 128
test_pages-whole k = refl

flash_image-IsSafe_example :
    IsSafe 5 test_pages (256 / 128) (run test_bus test_watch 5 test_pages 256 powered_up).1.log
flash_image-IsSafe_example =
    flash_image-IsSafe test_bus test_watch 5 test_pages 256 powered_up
      (run test_bus test_watch 5 test_pages 256 powered_up).1.log test_pages-whole (omega arith)
      (Earlier-refl (run test_bus test_watch 5 test_pages 256 powered_up).1.log)

flash_image-exits_example :
    let (r, t) = run test_bus test_watch 5 test_pages 256 powered_up in
    (was_started r.result ≡ true
      → (exits t.log ≡ 1)
        × ((k : ℕ) → k < 256 / 128 → last_burst 5 (k * 128) t.log ≡ some (test_pages k)))
    × (was_started r.result ≡ false → exits t.log ≡ 0)
flash_image-exits_example =
    flash_image-exits test_bus test_watch 5 test_pages 256 powered_up test_pages-whole (omega arith)

flash_image-Ended_example :
    Ended test_bus test_watch 5 test_pages
      (256 / 128)
      (run test_bus test_watch 5 test_pages 256 powered_up)
flash_image-Ended_example = flash_image-Ended test_bus test_watch 5 test_pages 256 powered_up

test_bus-IsClocked : IsClocked test_bus
test_bus-IsClocked = record {
  time = λ w. w.time;
  reads = λ w. refl;
  read_on = λ w. (omega arith, omega arith);
  queue_on = λ a bytes w. (omega arith, omega arith);
  end_on = λ s w. (omega arith, omega arith);
  slept = λ ms w. (omega arith, omega arith);
}

wait_ready-terminates_example :
    wait_ready test_bus 5 100 powered_up
    ≡ poll_until test_bus 5 500 (u32 (4294967290 + 100)) powered_up
wait_ready-terminates_example =
    wait_ready-terminates test_bus test_bus-IsClocked 5 100 500 powered_up (omega arith)
      (omega arith)

read_boot_section-exits_example :
    let (result, bytes, exited, again, t) =
      read_boot_section
        (traced test_bus)
        (traced_keep_alive test_bus (λ w. w) 5)
        5
        (fresh powered_up) in
    (is_silent result ≡ not (answered 5 t.log))
    × (answered 5 t.log ≡ false → exits t.log ≡ 0)
    × (answered 5 t.log ≡ true → (1 ≤ exits t.log) × (exits t.log ≤ 3))
read_boot_section-exits_example = read_boot_section-exits test_bus (λ w. w) 5 powered_up

write_offset_lem : (write_offset (traced test_bus) 5 (negsuc 41) (fresh powered_up)).0 ≡ 0
unfolding write_offset judge_offset read_offset query send_payload transmit_counted same_int
    offset_readback_valid offset_encode_reply offset_checksum
write_offset_lem = refl

abbrev supply : Vitals
supply = record { vcc_now_mv = 4980; vcc_min_mv = 4711; cmd_pos = 3; free_ram_min = 611 }

-- A unit that answers every query with its vitals.
abbrev vitals_bus : Bus ℕ
vitals_bus = record {
  queue = λ addr bytes w. (length bytes, w);
  end_transmission = λ stop w. (0, w);
  end_counted = λ w. (0, w);
  receive = λ addr qty w. (vitals_encode_reply supply, w);
  now_ms = λ w. (u32 w, w);
  sleep_ms = λ ms w. w + ms;
  read_failed = λ w. w;
  note_read_error = λ w. w;
  mark = λ act addr w. w;
}

read_report-said_example :
    read_report vitals_bus 5 45 (Report.vitals supply) 0 ≡ some (Reading.vitals supply)
unfolding transmit_counted
read_report-said_example =
    read_report-said vitals_bus 5 45 (Report.vitals supply) 0
      (omega arith, omega arith, omega arith) (refl, refl)
