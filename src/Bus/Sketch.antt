-- ===== src/Bus/Sketch.antt =====
-- firmware/v2/shared/UnitBusCore.h: the reads and writes of a unit that runs its sketch.
pub mod Writes
pub mod Reads
use split_flap.Common.{
  ℕ, zero, suc, ◌+◌, ◌*◌, Option, none, some, List, [], ◌∷◌, Bool, true, false, not, ◌&&◌, ◌||◌,
  ◌==◌, ◌!=◌, ltb, leb, if◌then◌else◌, length, get_or, take, not8, sub32,
}
use split_flap.Common.Int.{ℤ, pos, negsuc, to_u8}
use split_flap.Wire.Cmd
use split_flap.Wire.Contract.{
  no_arg_guard_byte, jog_encode, set_offset_encode, set_address_encode, offset_readback_valid,
  status_readback_valid, version_readback_valid,
}
use split_flap.Wire.Replies.{
  DiagReading, SelfTest, Vitals, letter_readback_valid, odometer_readback_valid,
  diag_readback_valid, self_test_readback_valid, vitals_readback_valid,
}
use split_flap.Wire.BusRecord.{BusRecordReading, bus_record_readback_valid}
use split_flap.Bus.Adapter.{Bus, read, transmit, transmit_counted}

abbrev pub offset_unverified : ℕ
offset_unverified = 20

abbrev pub offset_mismatch : ℕ
offset_mismatch = 21

-- `UnitStatus`
pub record UnitStatus : Type 0 where
  pub flags : ℕ
  pub mcusr_at_boot : ℕ
  pub brownouts : ℕ
  pub watchdogs : ℕ
  pub uptime_seconds : ℕ
  pub bad_commands : ℕ
  pub last_homing_steps : ℕ

unfoldable pub status_of : List ℕ → UnitStatus
status_of p = record {
  flags = get_or p 0 0;
  mcusr_at_boot = get_or p 1 0;
  brownouts = get_or p 2 0;
  watchdogs = get_or p 3 0;
  uptime_seconds = get_or p 4 0 * 256 + get_or p 5 0;
  bad_commands = get_or p 6 0;
  last_homing_steps = get_or p 7 0 * 16;
}

-- The revision of a version reply up to its terminator, `none` where a character of it may not
-- stand in the health JSON.
unfoldable pub printable_rev : List ℕ → Option (List ℕ)
printable_rev [] = some []
printable_rev (c ∷ cs) =
    let rest = printable_rev cs in
    let longer : Option (List ℕ) = elim rest [ none ↦ none | some r ↦ some (c ∷ r) ] in
    if c == 0
    then some []
    else if ltb c 32 || ltb 126 c
    then none
    else if c == 0x22 || c == 0x5c
    then none
    else longer

abbrev pub non_empty : Option (List ℕ) → Option (List ℕ)
non_empty none = none
non_empty (some []) = none
non_empty (some (c ∷ cs)) = some (c ∷ cs)

unfoldable pub jog_byte : ℤ → ℕ
jog_byte (pos n) = to_u8 (pos (if ltb 127 n then 127 else n))
jog_byte (negsuc n) = to_u8 (negsuc (if ltb 126 n then 126 else n))

-- A reply behind its validation.
abbrev pub decoded :
    {A : Type 0} {W : Type 0} → (List ℕ → Option A) → Option (List ℕ) × W → Option A × W
decoded f (none, w) = (none, w)
decoded f (some buf, w) = (f buf, w)

unfoldable pub same_int : ℤ → ℤ → Bool
same_int (pos a) (pos b) = a == b
same_int (negsuc a) (negsuc b) = a == b
same_int _ _ = false

-- The verdict on an offset that was written, by what was read back.
unfoldable pub judge_offset : ℤ → Option ℤ → ℕ
unfolding same_int
judge_offset value none = offset_unverified
judge_offset value (some read_back) = if same_int read_back value then 0 else offset_mismatch

module _ {W : Type 0} (bus : Bus W) (addr : ℕ) where
  unfoldable pub send_guarded : ℕ → W → ℕ × W
  unfolding transmit_counted
  send_guarded opcode w = transmit_counted bus addr (opcode ∷ no_arg_guard_byte opcode ∷ []) w

  unfoldable pub send_payload : ℕ → List ℕ → W → ℕ × W
  unfolding transmit_counted
  send_payload opcode payload w = transmit_counted bus addr (opcode ∷ payload) w

  -- `unitQuery`; a reply of another length is a failed read.
  unfoldable pub query : ℕ → ℕ → W → Option (List ℕ) × W
  unfolding transmit_counted
  query opcode n w =
      let (status, w1) = transmit_counted bus addr (opcode ∷ []) w in
      let (buf, w2) = bus.receive addr n (bus.mark read addr (bus.sleep_ms 2 w1)) in
      if status != 0
      then (none, w1)
      else if length buf != n
      then (none, bus.read_failed (bus.note_read_error w2))
      else (some buf, w2)

  unfoldable pub read_status : W → Option UnitStatus × W
  unfolding query status_of
  read_status w =
      decoded
        (λ buf. elim (status_readback_valid buf 9) [ none ↦ none | some p ↦ some (status_of p) ])
        (query 0x83 9 w)

  unfoldable pub read_odometer : W → Option ℕ × W
  unfolding query
  read_odometer w = decoded odometer_readback_valid (query 0x85 5 w)

  unfoldable pub read_diag : ℕ → W → Option DiagReading × W
  unfolding query
  read_diag flap_amount w = decoded (λ buf. diag_readback_valid buf flap_amount) (query 0x86 6 w)

  unfoldable pub read_vitals : W → Option Vitals × W
  unfolding query
  read_vitals w = decoded vitals_readback_valid (query 0x88 8 w)

  unfoldable pub read_bus_record : W → Option BusRecordReading × W
  unfolding query
  read_bus_record w = decoded (λ buf. bus_record_readback_valid buf 9) (query 0x8c 9 w)

  unfoldable pub read_offset : W → Option ℤ × W
  unfolding query
  read_offset w = decoded (λ buf. offset_readback_valid buf 3) (query 0x82 3 w)

  -- The revision and the protocol version.
  unfoldable pub read_version : W → Option (List ℕ × ℕ) × W
  unfolding query printable_rev
  read_version w =
      decoded
        (λ buf. elim (version_readback_valid buf 10) [
          | none ↦ none
          | some p ↦ elim (non_empty (printable_rev p.rev)) [
            | none ↦ none
            | some rev ↦ some (rev, p.version)
          ]
        ])
        (query 0x81 10 w)

  unfoldable pub read_displayed_letter : ℕ → W → Option ℕ × W
  unfolding query
  read_displayed_letter flap_amount w =
      decoded
        (λ buf.
          if letter_readback_valid (get_or buf 0 0) (get_or buf 1 0) flap_amount
          then some (get_or buf 0 0)
          else none)
        (query 0x84 2 w)

  unfoldable pub read_self_test : W → Option SelfTest × W
  unfolding query
  read_self_test w = decoded self_test_readback_valid (query 0x87 9 w)

  -- The byte of a bare read, or -1; the second is an empty transmission to wake the unit.
  unfoldable pub moving_status : W → Option ℕ × W
  unfolding transmit
  moving_status w =
      let (buf, w1) = bus.receive addr 1 (bus.mark read addr w) in
      let (status, w2) = transmit bus addr [] true (bus.read_failed w1) in
      if length buf == 0 then (none, w2) else (some (get_or buf 0 0), w1)

  unfoldable pub write_letter : ℕ → ℕ → W → ℕ × W
  unfolding transmit_counted
  write_letter letter speed w = transmit_counted bus addr (letter ∷ speed ∷ []) w

  -- Persists the calibration offset and reads it back.
  unfoldable pub write_offset : ℤ → W → ℕ × W
  unfolding send_payload read_offset judge_offset
  write_offset value w =
      let (status, w1) = send_payload 0x93 (set_offset_encode value) w in
      let (read_back, w2) = read_offset (bus.sleep_ms 30 w1) in
      if status != 0 then (status, w1) else (judge_offset value read_back, w2)

  unfoldable pub jog : ℤ → W → ℕ × W
  unfolding send_payload jog_byte
  jog steps w = send_payload 0x91 (jog_encode (jog_byte steps)) w

  unfoldable pub home : W → ℕ × W
  unfolding send_guarded
  home w = send_guarded Cmd.home w

  unfoldable pub identify : W → ℕ × W
  unfolding send_guarded
  identify w = send_guarded Cmd.identify w

  unfoldable pub reset_odometer : W → ℕ × W
  unfolding send_guarded
  reset_odometer w = send_guarded Cmd.reset_odometer w

  unfoldable pub start_self_test : W → ℕ × W
  unfolding send_guarded
  start_self_test w = send_guarded Cmd.start_self_test w

  unfoldable pub reboot_sketch : W → ℕ × W
  unfolding send_guarded
  reboot_sketch w = send_guarded Cmd.reboot w

  unfoldable pub clear_address : W → ℕ × W
  unfolding send_guarded
  clear_address w = send_guarded Cmd.clear_i2c_address w

  unfoldable pub send_boot_update : ℕ → W → ℕ × W
  unfolding send_payload
  send_boot_update stage w = send_payload 0x9a (stage ∷ not8 stage ∷ []) w

  -- Sent without the guard byte.
  unfoldable pub enter_bootloader : W → ℕ × W
  unfolding send_payload
  enter_bootloader w = send_payload Cmd.enter_bootloader [] w

  unfoldable pub set_address : ℕ → W → ℕ × W
  unfolding send_payload
  set_address new_address w = send_payload 0x94 (set_address_encode new_address) w
