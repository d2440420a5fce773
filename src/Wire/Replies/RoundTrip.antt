-- ===== src/Wire/Replies/RoundTrip.antt =====
-- The decoders of a row master and the encoders of a unit fit: each reader of Replies and BusRecord
-- takes the frames of its writer, and those only where every byte of a frame is told apart.
use split_flap.Common.{
  ℕ, ◌≤◌, ◌<◌, bit_xor, ◌≡◌, ◌↔◌, ◌⊎◌, refl, some, [], ◌∷◌, true, arith, IsByte, IsWord16, IsWord32,
  not8, ◌==◌, ==_iff,
}
use split_flap.Common.Xor.{xor_left_injective, xor-lt}
use split_flap.Common.Table.{table_256, at_byte}
use split_flap.Common.Int.{ℤ}
use split_flap.Wire.Checksum.{xor_bytes, masked_xor}
use split_flap.Wire.BusRecord.{BusRecord, bus_record_encode_reply, bus_record_readback_valid}
use split_flap.Wire.Replies.{
  letter_readback_valid, odometer_encode_reply, odometer_readback_valid, clamp_drift,
  diag_encode_reply, diag_readback_valid, SelfTest, self_test_encode_reply,
  self_test_readback_valid, Vitals, vitals_encode_reply, vitals_readback_valid,
}

-- GET_ODOMETER: five bytes are read as the count `n` exactly when they are what a unit sends at
-- `n`.
pub odometer_readback_valid_iff :
    (a b c d e n : ℕ)
    → IsByte a
    → IsByte b
    → IsByte c
    → IsByte d
    → IsWord32 n
    → let buf = a ∷ b ∷ c ∷ d ∷ e ∷ [] in
      (odometer_readback_valid buf ≡ some n) ↔ (buf ≡ odometer_encode_reply n)
unfolding odometer_readback_valid odometer_encode_reply
odometer_readback_valid_iff a b c d e n ha hb hc hd hn = ground arith

-- Values whose 16-bit fields fit.
abbrev pub IsVitals : Vitals → Type 0
IsVitals v = IsWord16 v.vcc_now_mv × IsWord16 v.vcc_min_mv × IsWord16 v.free_ram_min

-- GET_VITALS: a row master reads back the vitals that a unit sends, where the 16-bit fields fit.
pub vitals_readback_valid_encode :
    (v : Vitals) → IsVitals v → vitals_readback_valid (vitals_encode_reply v) ≡ some v
unfolding vitals_readback_valid vitals_encode_reply masked_xor xor_bytes
vitals_readback_valid_encode v h = ground arith

-- GET_BUS_RECORD: a row master reads back any record and any running silence that a unit sends.
pub bus_record_readback_valid_encode :
    (r : BusRecord) (silent : ℕ)
    → bus_record_readback_valid (bus_record_encode_reply r silent) 9
      ≡ some (record { stored = r; silent_now_minutes = silent })
unfolding bus_record_readback_valid bus_record_encode_reply masked_xor xor_bytes
bus_record_readback_valid_encode r silent = ground arith

-- A known state and reason, and counters of 16 bits.
abbrev pub IsSelfTest : SelfTest → Type 0
IsSelfTest r =
    (r.state ≤ 3)
    × IsWord16 r.steps_per_rev
    × IsWord16 r.hall_window_steps
    × IsWord16 r.rev_time_ms
    × (r.reason ≤ 3)

-- GET_SELF_TEST: a row master reads back every such result that a unit sends.
pub self_test_readback_valid_encode :
    (r : SelfTest) → IsSelfTest r → self_test_readback_valid (self_test_encode_reply r) ≡ some r
unfolding self_test_readback_valid self_test_encode_reply masked_xor xor_bytes
self_test_readback_valid_encode r h = ground arith

-- GET_DIAG: for a letter of the drum or the unknown letter, a row master reads back the flags, the
-- events and the clamped drift that a unit sends.
pub diag_readback_valid_encode :
    (letter flags events : ℕ) (steps : ℤ) (flap_amount : ℕ)
    → (letter < flap_amount) ⊎ (letter ≡ 0xff)
    → diag_readback_valid (diag_encode_reply letter flags events steps) flap_amount
      ≡ some (record {
        physical_letter = letter;
        flags = flags;
        drift_events = events;
        last_drift_steps = clamp_drift steps;
      })
unfolding diag_readback_valid diag_encode_reply clamp_drift
diag_readback_valid_encode letter flags events steps flap_amount h = ground arith

complement_table : table_256 (λ v. bit_xor v (not8 v) == 255) ≡ true
unfolding table_256
complement_table = refl

xor-not8 : (v : ℕ) → v < 256 → bit_xor v (not8 v) ≡ 255
xor-not8 v h = (==_iff _ 255).0 (at_byte _ complement_table v h)

-- GET_LETTER: a pair of bytes is accepted exactly when the second is the complement of the first
-- and the first is below the number of flaps.
pub letter_readback_valid_iff :
    (value complement flap_amount : ℕ)
    → IsByte value
    → IsByte complement
    → (letter_readback_valid value complement flap_amount ≡ true)
      ↔ ((complement ≡ not8 value) × (value < flap_amount))
unfolding letter_readback_valid
letter_readback_valid_iff value complement flap_amount hv hc = ground (
  arith,
  xor-not8 value hv,
  xor_left_injective value complement (not8 value),
  xor-lt value complement hv hc,
)
