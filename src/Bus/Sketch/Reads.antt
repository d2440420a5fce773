-- ===== src/Bus/Sketch/Reads.antt =====
-- firmware/v2/shared/UnitBusCore.h with the encoders of a unit's replies: what a row master reads
-- of what a unit sent.
use split_flap.Common.{
  ℕ, ◌<◌, ◌≡◌, ◌⊎◌, Option, none, some, List, [], ◌∷◌, false, ◌!=◌, length, arith, refl,
}
use split_flap.Common.Int.{ℤ}
use split_flap.Wire.Replies.{
  DiagReading, SelfTest, Vitals, vitals_encode_reply, self_test_encode_reply, diag_encode_reply,
  clamp_drift,
}
use split_flap.Wire.Replies.RoundTrip.{
  IsVitals, IsSelfTest, vitals_readback_valid_encode, bus_record_readback_valid_encode,
  self_test_readback_valid_encode, diag_readback_valid_encode,
}
use split_flap.Wire.BusRecord.{BusRecord, BusRecordReading, bus_record_encode_reply}
use split_flap.Bus.Adapter.{Bus, read, transmit_counted}
use split_flap.Bus.Sketch.{decoded, query, read_vitals, read_bus_record, read_self_test, read_diag}

-- What a unit sends, in its own terms.
pub data Report : Type 0 where
  vitals : Vitals → Report
  bus_record : BusRecord → ℕ → Report
  self_test : SelfTest → Report
  diag : ℕ → ℕ → ℕ → ℤ → Report

-- What a row master reads.
pub data Reading : Type 0 where
  vitals : Vitals → Reading
  bus_record : BusRecordReading → Reading
  self_test : SelfTest → Reading
  diag : DiagReading → Reading

-- Fields that fit theirs, and a letter of the drum or the unknown one.
abbrev pub IsReport : ℕ → Report → Type 0
IsReport flap_amount (Report.vitals v) = IsVitals v
IsReport flap_amount (Report.bus_record r silent) = Unit
IsReport flap_amount (Report.self_test r) = IsSelfTest r
IsReport flap_amount (Report.diag letter flags events steps) =
    (letter < flap_amount) ⊎ (letter ≡ 0xff)

abbrev pub opcode_of : Report → ℕ
opcode_of (Report.vitals v) = 0x88
opcode_of (Report.bus_record r silent) = 0x8c
opcode_of (Report.self_test r) = 0x87
opcode_of (Report.diag letter flags events steps) = 0x86

abbrev pub length_of : Report → ℕ
length_of (Report.vitals v) = 8
length_of (Report.bus_record r silent) = 9
length_of (Report.self_test r) = 9
length_of (Report.diag letter flags events steps) = 6

abbrev pub frame_of : Report → List ℕ
frame_of (Report.vitals v) = vitals_encode_reply v
frame_of (Report.bus_record r silent) = bus_record_encode_reply r silent
frame_of (Report.self_test r) = self_test_encode_reply r
frame_of (Report.diag letter flags events steps) = diag_encode_reply letter flags events steps

-- What a report says to its reader: the drift of a diagnosis is clamped to a byte.
abbrev pub said : Report → Reading
said (Report.vitals v) = Reading.vitals v
said (Report.bus_record r silent) =
    Reading.bus_record (record { stored = r; silent_now_minutes = silent })
said (Report.self_test r) = Reading.self_test r
said (Report.diag letter flags events steps) = Reading.diag (record {
  physical_letter = letter;
  flags = flags;
  drift_events = events;
  last_drift_steps = clamp_drift steps;
})

module _ {W : Type 0} (bus : Bus W) (addr : ℕ) where
  abbrev pub reading : {A : Type 0} → (A → Reading) → Option A × W → Option Reading
  reading f (none, w) = none
  reading f (some a, w) = some (f a)

  -- The read of the kind of a report.
  abbrev pub read_report : ℕ → Report → W → Option Reading
  read_report flap_amount (Report.vitals v) w = reading Reading.vitals (read_vitals bus addr w)
  read_report flap_amount (Report.bus_record r silent) w =
      reading Reading.bus_record (read_bus_record bus addr w)
  read_report flap_amount (Report.self_test r) w =
      reading Reading.self_test (read_self_test bus addr w)
  read_report flap_amount (Report.diag letter flags events steps) w =
      reading Reading.diag (read_diag bus addr flap_amount w)

  -- The query is ACKed, and the bytes asked for behind it are these.
  abbrev pub Answers : ℕ → ℕ → List ℕ → W → Type 0
  Answers opcode n bytes w =
      let (status, w1) = transmit_counted bus addr (opcode ∷ []) w in
      (status ≡ 0) × ((bus.receive addr n (bus.mark read addr (bus.sleep_ms 2 w1))).0 ≡ bytes)

  query-decoded :
      {A : Type 0} (f : List ℕ → Option A) (g : A → Reading) (a : A) (opcode n : ℕ) (bytes : List ℕ)
      (w : W)
      → Answers opcode n bytes w
      → length bytes ≡ n
      → f bytes ≡ some a
      → reading g (decoded f (query bus addr opcode n w)) ≡ some (g a)
  unfolding query
  query-decoded f g a opcode n bytes w (acked, came) l d =
      let fits : (length bytes != n) ≡ false = ground (arith, l) in
      rw acked (rw came (rw fits (rw d refl)))

  -- A row master whose query is ACKed and answered with the frame of a report reads what the report
  -- says: vitals, bus record, self test and drift diagnosis, for fields that fit theirs.
  pub read_report-said :
      (flap_amount : ℕ) (r : Report) (w : W)
      → IsReport flap_amount r
      → Answers (opcode_of r) (length_of r) (frame_of r) w
      → read_report flap_amount r w ≡ some (said r)
  unfolding read_vitals read_bus_record read_self_test read_diag vitals_encode_reply
      bus_record_encode_reply self_test_encode_reply diag_encode_reply
  read_report-said flap_amount (Report.vitals v) w h a =
      query-decoded _ Reading.vitals v 0x88 8 (vitals_encode_reply v) w a refl
        (vitals_readback_valid_encode v h)
  read_report-said flap_amount (Report.bus_record r silent) w h a =
      query-decoded _ Reading.bus_record _ 0x8c 9 (bus_record_encode_reply r silent) w a refl
        (bus_record_readback_valid_encode r silent)
  read_report-said flap_amount (Report.self_test r) w h a =
      query-decoded _ Reading.self_test r 0x87 9 (self_test_encode_reply r) w a refl
        (self_test_readback_valid_encode r h)
  read_report-said flap_amount (Report.diag letter flags events steps) w h a =
      query-decoded _ Reading.diag _ 0x86 6 (diag_encode_reply letter flags events steps) w a refl
        (diag_readback_valid_encode letter flags events steps flap_amount h)
