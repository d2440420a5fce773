-- ===== src/Wire/Replies.antt =====
-- The replies with a layout of their own: the odometer (firmware/v2/Unit/UnitOdometer.h and
-- firmware/v2/shared/UnitProtocolHelpers.h), the drift diagnosis (UnitDrift.h and
-- UnitProtocolHelpers.h), the self test (UnitSelfTest.h and UnitProtocolHelpers.h), the supply
-- vitals (UnitVitals.h), the record of bus silences (UnitBusRecord.h) and the letter pair.
pub mod RoundTrip
use split_flap.Common.{
  ℕ, zero, suc, ◌+◌, ◌*◌, ◌/◌, ◌%◌, bit_xor, Option, none, some, List, [], ◌∷◌, ◌++◌, Bool, true,
  false, not, ◌&&◌, ◌||◌, ◌==◌, ◌!=◌, ltb, leb, if◌then◌else◌, get_or, take, u8, u16,
}
use split_flap.Common.Int.{ℤ, pos, negsuc, to_u8, of_u8}
use split_flap.Wire.Checksum.{xor_bytes, masked_xor}
use split_flap.Wire.Contract.{le16}

unfoldable pub letter_readback_valid : ℕ → ℕ → ℕ → Bool
letter_readback_valid value complement flap_amount =
    if u8 (bit_xor value complement) != 0xff then false else ltb value flap_amount

-- GET_ODOMETER: four bytes, low first, and their checksum.
unfoldable pub odometer_sum : List ℕ → ℕ
odometer_sum buf = u8 (
    bit_xor
      (bit_xor (bit_xor (bit_xor (get_or buf 0 0) (get_or buf 1 0)) (get_or buf 2 0))
        (get_or buf 3 0))
      0xa5)

unfoldable pub odometer_encode_reply : ℕ → List ℕ
unfolding odometer_sum
odometer_encode_reply revolutions =
    let payload =
      (revolutions % 256)
      ∷ (revolutions / 256 % 256)
      ∷ (revolutions / 65536 % 256)
      ∷ (revolutions / 16777216 % 256)
      ∷ [] in
    payload ++ odometer_sum payload ∷ []

unfoldable pub odometer_readback_valid : List ℕ → Option ℕ
unfolding odometer_sum
odometer_readback_valid buf =
    if get_or buf 4 0 != odometer_sum buf
    then none
    else some
        (get_or buf 0 0 + get_or buf 1 0 * 256 + get_or buf 2 0 * 65536 + get_or buf 3 0 * 16777216)

-- GET_DIAG
pub record DiagReading : Type 0 where
  pub physical_letter : ℕ
  pub flags : ℕ
  pub drift_events : ℕ
  pub last_drift_steps : ℤ

unfoldable pub diag_sum : List ℕ → ℕ
diag_sum buf = u8 (
    bit_xor
      (bit_xor
        (bit_xor (bit_xor (bit_xor (get_or buf 0 0) (get_or buf 1 0)) (get_or buf 2 0))
          (get_or buf 3 0))
        (get_or buf 4 0))
      0xb7)

-- The drift is clamped to -127 .. 127.
unfoldable pub clamp_drift : ℤ → ℤ
clamp_drift (pos n) = if ltb 127 n then pos 127 else pos n
clamp_drift (negsuc n) = if ltb 126 n then negsuc 126 else negsuc n

unfoldable pub diag_encode_reply : ℕ → ℕ → ℕ → ℤ → List ℕ
unfolding diag_sum clamp_drift
diag_encode_reply physical_letter flags drift_events last_drift_steps =
    let payload =
      physical_letter ∷ flags ∷ drift_events ∷ to_u8 (clamp_drift last_drift_steps) ∷ 0 ∷ [] in
    payload ++ diag_sum payload ∷ []

unfoldable pub diag_readback_valid : List ℕ → ℕ → Option DiagReading
unfolding diag_sum
diag_readback_valid buf flap_amount =
    if get_or buf 5 0 != diag_sum buf
    then none
    else if get_or buf 0 0 != 0xff && leb flap_amount (get_or buf 0 0)
    then none
    else some (record {
      physical_letter = get_or buf 0 0;
      flags = get_or buf 1 0;
      drift_events = get_or buf 2 0;
      last_drift_steps = of_u8 (get_or buf 3 0);
    })

-- GET_SELF_TEST
pub record SelfTest : Type 0 where
  pub state : ℕ
  pub steps_per_rev : ℕ
  pub hall_window_steps : ℕ
  pub rev_time_ms : ℕ
  pub reason : ℕ

unfoldable pub self_test_encode_reply : SelfTest → List ℕ
unfolding masked_xor
self_test_encode_reply r =
    let payload =
      r.state
      ∷ (r.steps_per_rev % 256)
      ∷ (r.steps_per_rev / 256 % 256)
      ∷ (r.hall_window_steps % 256)
      ∷ (r.hall_window_steps / 256 % 256)
      ∷ (r.rev_time_ms % 256)
      ∷ (r.rev_time_ms / 256 % 256)
      ∷ r.reason
      ∷ [] in
    payload ++ masked_xor 8 0x5c payload ∷ []

unfoldable pub self_test_readback_valid : List ℕ → Option SelfTest
unfolding masked_xor
self_test_readback_valid buf =
    if get_or buf 8 0 != masked_xor 8 0x5c buf
    then none
    else if ltb 3 (get_or buf 0 0)
    then none
    else if ltb 3 (get_or buf 7 0)
    then none
    else some (record {
      state = get_or buf 0 0;
      steps_per_rev = le16 (get_or buf 1 0) (get_or buf 2 0);
      hall_window_steps = le16 (get_or buf 3 0) (get_or buf 4 0);
      rev_time_ms = le16 (get_or buf 5 0) (get_or buf 6 0);
      reason = get_or buf 7 0;
    })

-- GET_VITALS
pub record Vitals : Type 0 where
  pub vcc_now_mv : ℕ
  pub vcc_min_mv : ℕ
  pub cmd_pos : ℕ
  pub free_ram_min : ℕ

-- Vcc from a reading of the 1.1 V reference; a reading of 0 gives 0.
unfoldable pub vcc_from_adc : ℕ → ℕ
vcc_from_adc adc =
    let mv = 1100 * 1023 / adc in if adc == 0 then 0 else if ltb 0xffff mv then 0xffff else mv

unfoldable pub vitals_checksum : List ℕ → ℕ
unfolding masked_xor
vitals_checksum buf = masked_xor 7 0x3c buf

unfoldable pub vitals_encode_reply : Vitals → List ℕ
unfolding vitals_checksum
vitals_encode_reply v =
    let payload =
      (v.vcc_now_mv % 256)
      ∷ (v.vcc_now_mv / 256 % 256)
      ∷ (v.vcc_min_mv % 256)
      ∷ (v.vcc_min_mv / 256 % 256)
      ∷ v.cmd_pos
      ∷ (v.free_ram_min % 256)
      ∷ (v.free_ram_min / 256 % 256)
      ∷ [] in
    payload ++ vitals_checksum payload ∷ []

unfoldable pub vitals_readback_valid : List ℕ → Option Vitals
unfolding vitals_checksum
vitals_readback_valid buf =
    if get_or buf 7 0 != vitals_checksum buf
    then none
    else some (record {
      vcc_now_mv = le16 (get_or buf 0 0) (get_or buf 1 0);
      vcc_min_mv = le16 (get_or buf 2 0) (get_or buf 3 0);
      cmd_pos = get_or buf 4 0;
      free_ram_min = le16 (get_or buf 5 0) (get_or buf 6 0);
    })
